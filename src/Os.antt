-- ===== src/Os.antt =====
-- The operating system and the C library, as a parameter: what each call of the code answers may
-- depend on every call made before it. src/helpers.c (get_uptime, get_primary_ip6,
-- isvalueinarray) and the timeval macros of <sys/time.h> stand on it.
use open_hybrid.Base.{
  ℕ, zero, suc, ◌/◌, Bool, true, false, ◌&&◌, List, [], ◌∷◌, Option, none, some, ◌==◌,
  if◌then◌else◌, bytes_eq, replicate,
}
use open_hybrid.Base.Int.{ℤ, pos, ◌+ℤ◌, ◌-ℤ◌, ltb_ℤ, leb_ℤ, eqb_ℤ}
use open_hybrid.Runtime.{Timeval, Interval, Call, State}

-- A line of /proc/net/if_inet6, of which fscanf reads all 19 items.
pub record IfAddr : Type 0 where
  pub this_ip : List ℕ
  pub this_scope : ℕ
  pub this_ifname : List ℕ

-- Each answer is a function of the calls made so far, the newest first.
pub record Os : Type 0 where
  -- clock_gettime(CLOCK_MONOTONIC): seconds and nanoseconds.
  pub clock_sec : List Call → ℕ
  pub clock_nsec : List Call → ℕ
  -- The lines of /proc/net/if_inet6, unless it cannot be opened.
  pub if_inet6 : List Call → Option (List IfAddr)
  -- Whether sendmsg returned more than 0.
  pub sendmsg_sent : List Call → Bool
  -- The pid that fork gives the parent, unless it fails.
  pub fork_pid : List Call → Option ℕ
  pub pipe_made : List Call → Bool
  -- What `status` holds after waitpid(pid, &status, WNOHANG). Where the child still runs, that is
  -- what the uninitialised variable held before.
  pub wait_status : List Call → ℕ
  -- The bytes that a read of the pipe of a client gives: none where it returns 0, and an empty list
  -- where it fails.
  pub pipe_bytes : List Call → Option (List ℕ)
  pub kill_done : List Call → Bool
  -- Whether the netlink socket opens, and whether the kernel's answer carries no error.
  pub netlink_opened : List Call → Bool
  pub netlink_acked : List Call → Bool
  -- The descriptor of /dev/net/tun, and whether TUNSETIFF succeeds.
  pub tun_fd : List Call → Option ℕ
  pub tunsetiff_done : List Call → Bool
  -- The descriptor of a new raw socket, and whether its timeout could be set.
  pub socket_fd : List Call → Option ℕ
  pub setsockopt_done : List Call → Bool
  -- The descriptor of mkstemp, what write says it wrote, and whether unlink succeeds.
  pub script_fd : List Call → Option ℕ
  pub script_written : List Call → Option ℕ
  pub unlink_done : List Call → Bool
  -- inet_pton(AF_INET), inet_pton(AF_INET6) and atoi of the C library, on a text without its end.
  pub inet_pton : List ℕ → Option (List ℕ)
  pub inet_pton6 : List ℕ → Option (List ℕ)
  pub atoi : List ℕ → ℤ
  -- inet_ntop(AF_INET) and inet_ntop(AF_INET6) on the bytes of an address: the text without its end.
  pub inet_ntop : List ℕ → List ℕ
  pub inet_ntop6 : List ℕ → List ℕ
  -- What pthread_create leaves in the pthread_t.
  pub thread_id : List Call → ℕ

-- Make a call: the answer is read from the calls before it.
abbrev pub called : Call → State → State
called c s = record s { trace = c ∷ s.trace }

pub isvalueinarray : ℕ → List ℕ → ℕ → Bool
isvalueinarray val arr zero = false
isvalueinarray val [] (suc n) = false
isvalueinarray val (a ∷ arr) (suc n) = if a == val then true else isvalueinarray val arr n

abbrev pub get_uptime : Os → State → Timeval × State
get_uptime os s = (
  record { tv_sec = os.clock_sec s.trace; tv_usec = os.clock_nsec s.trace / 1000 },
  called Call.clock_gettime s,
)

-- The loop of get_primary_ip6: the last global address of the interface is taken.
unfoldable pub primary_ip6 : List ℕ → List IfAddr → List ℕ → List ℕ
primary_ip6 interface [] ip = ip
primary_ip6 interface (a ∷ r) ip =
    primary_ip6 interface r
      (if bytes_eq interface a.this_ifname && a.this_scope == 0 then a.this_ip else ip)

abbrev pub no_ip6 : List ℕ
no_ip6 = replicate 16 0

unfoldable pub get_primary_ip6 : Os → List ℕ → State → List ℕ × State
unfolding primary_ip6
get_primary_ip6 os interface s = (
  elim (os.if_inet6 s.trace) [
    | none ↦ no_ip6
    | some entries ↦ primary_ip6 interface entries no_ip6
  ],
  called Call.fopen_if_inet6 s,
)

-- timersub(a, b, result) of <sys/time.h>.
unfoldable pub timersub : Timeval → Timeval → Interval
timersub a b =
    let sec = pos a.tv_sec -ℤ pos b.tv_sec in
    let usec = pos a.tv_usec -ℤ pos b.tv_usec in
    if ltb_ℤ usec (pos 0)
    then record { tv_sec = sec -ℤ pos 1; tv_usec = usec +ℤ pos 1000000 }
    else record { tv_sec = sec; tv_usec = usec }

-- timercmp(a, b, >=) of <sys/time.h>.
unfoldable pub timer_ge : Interval → Interval → Bool
timer_ge a b =
    if eqb_ℤ a.tv_sec b.tv_sec then leb_ℤ b.tv_usec a.tv_usec else leb_ℤ b.tv_sec a.tv_sec
