-- ===== src/Timers/Ends.antt =====
-- How execute_timers (src/openhybrid.c) may end the process.
use open_hybrid.Base.{
  List, ◌∷◌, ℕ, Bool, true, false, not, ◌&&◌, ◌||◌, Option, none, some, ◌==◌, ◌!=◌, if◌then◌else◌,
  ◌≡◌, refl, ap, sym, ◌∙◌, ◌⊎◌, inl, inr, Bool-cases, arith,
}
use open_hybrid.Runtime.{Settings, State, Call, settings_of, steady}
use open_hybrid.Os.{Os, called}
use open_hybrid.Tundev.{Run, running, exited, ◌>>>◌, open_gre_socket}
use open_hybrid.Timers.Tunnels.{keep_tunnels}
use open_hybrid.Timers.Session.{
  reset_haap, reset_stats, tunnel_device, start_gre2tun, start_tun2gre, data_threads, sigint,
  sigterm, handle_signals,
}
use open_hybrid.Timers.Clients.{dhcp_clients, expire_leases}
use open_hybrid.Sections.{IsClosed, IsClosedLte}
use open_hybrid.Sections.Session.{last_state, opened, data_threads-keeps}
use open_hybrid.Sections.Whole.{before_threads-keeps, before_signals-keeps}
use open_hybrid.Timers.{execute_timers}

-- What a step comes to: a state with `P`, or the end of the process with a code and in a state that
-- have `Q`.
abbrev pub RunHolds : (State → Type 0) → (ℕ → State → Type 0) → Run → Type 0
RunHolds P Q (running s) = P s
RunHolds P Q (exited code s) = Q code s

pub RunHolds-bind :
    (P R : State → Type 0) (Q : ℕ → State → Type 0) (m : Run) (f : State → Run)
    → RunHolds P Q m
    → ((s : State) → P s → RunHolds R Q (f s))
    → RunHolds R Q (m >>> f)
RunHolds-bind P R Q (running s) f h g = g s h
RunHolds-bind P R Q (exited code s) f h g = h

abbrev pub is_stop : ℕ → Bool
is_stop signal = signal == sigint || signal == sigterm

-- The last call was one for a socket, or for an option of it, and it failed.
abbrev pub SocketFailed : Os → State → Type 0
SocketFailed os s =
    (calls : List Call) × (((s.trace ≡ Call.socket ∷ calls) × (os.socket_fd calls ≡ none))
      ⊎ ((s.trace ≡ Call.setsockopt ∷ calls) × (os.setsockopt_done calls ≡ false)))

-- That happens in bonding mode only.
abbrev FailsBonding : Os → State → ℕ → State → Type 0
FailsBonding os s code x = (code ≡ 1) × SocketFailed os x × (s.runtime.bonding ≡ true)

-- What is known of the last state, also where it ends the process, joined with how it ends.
RunHolds-of_last :
    (P : State → Type 0) (Q : ℕ → State → Type 0) (m : Run)
    → RunHolds (λ s. Unit) Q m
    → P (last_state m)
    → RunHolds P Q m
RunHolds-of_last P Q (running s) h p = p
RunHolds-of_last P Q (exited code s) h p = h

pub RunHolds-map :
    (P P' : State → Type 0) (Q Q' : ℕ → State → Type 0) (m : Run)
    → RunHolds P Q m
    → ((s : State) → P s → P' s)
    → ((code : ℕ) (s : State) → Q code s → Q' code s)
    → RunHolds P' Q' m
RunHolds-map P P' Q Q' (running s) h f g = f s h
RunHolds-map P P' Q Q' (exited code s) h f g = g code s h

opened-Fails :
    (os : Os) (fd : Option ℕ) (s : State)
    → os.socket_fd s.trace ≡ fd
    → RunHolds (λ s1. Unit) (λ code x. (code ≡ 1) × SocketFailed os x) (opened os fd s)
unfolding opened
opened-Fails os none s e = (refl, (s.trace, inl (refl, e)))
opened-Fails os (some fd) s e =
    elim (Bool-cases (os.setsockopt_done (called Call.socket s).trace)) [
      | inl d ↦ simp d tt
      | inr d ↦ simp d (refl, ((called Call.socket s).trace, inr (refl, d)))
    ]

socket_once-Fails :
    (os : Os) (s : State)
    → s.runtime.bonding ≡ true
    → RunHolds
        (λ s1. Unit)
        (FailsBonding os s)
        (if s.sockfd_gre == 0 then open_gre_socket os s else running s)
unfolding open_gre_socket opened
socket_once-Fails os s b = elim (Bool-cases (s.sockfd_gre == 0)) [
  | inl e ↦ rw e (
      RunHolds-map (λ s1. Unit) (λ s1. Unit) (λ code x. (code ≡ 1) × SocketFailed os x)
        (FailsBonding os s) (opened os (os.socket_fd s.trace) s)
        (opened-Fails os (os.socket_fd s.trace) s refl) (λ s1 h. h)
        (λ code x (one, fails). (one, fails, b)))
  | inr e ↦ rw e tt
]

data_threads-Fails :
    (os : Os) (s : State) → RunHolds (λ s1. Unit) (FailsBonding os s) (data_threads os s)
unfolding data_threads
data_threads-Fails os s =
    elim (Bool-cases (s.runtime.bonding && s.runtime.tunnel_interface_created)) [
      | inl e ↦
          let bonding : s.runtime.bonding ≡ true = ground arith in
          simp e (
            RunHolds-bind (λ s1. Unit) (λ s1. Unit) (FailsBonding os s)
              (if s.sockfd_gre == 0 then open_gre_socket os s else running s)
              (λ s1. running (start_tun2gre os (start_gre2tun os s1)))
              (socket_once-Fails os s bonding) (λ s1 h. tt))
      | inr e ↦ elim (Bool-cases (s.runtime.bonding && not s.runtime.tunnel_interface_created)) [
        | inl d ↦ simp (e, d) tt
        | inr d ↦ simp (e, d) tt
      ]
    ]

-- Every update but the handling of a signal keeps the configuration and the waiting signal.
steady-IsClosed : (os : Os) (k : Settings × ℕ) → IsClosed os (λ s. steady s ≡ k)
unfolding steady reset_haap
steady-IsClosed os k = record {
  call = λ c s p h. h;
  lte_ip = λ s h. h;
  dsl_ip = λ s h. h;
  acked = λ b s h. h;
  verification = λ b s h. h;
  dsl_missed = λ n s h. h;
  dsl_sent = λ n s h. h;
  dsl_down = λ s h. h;
  dsl_reset = λ s h. h;
  bypass = λ n s h. h;
  session = λ s h. h;
  dhcp = λ d s h. h;
  dhcp6 = λ d s h. h;
  created = λ b s h. h;
  gre2tun = λ n s h. h;
  tun2gre = λ n s h. h;
  gre_socket = λ n s h. h;
  tun_socket = λ fd s h. h;
}

steady-IsClosedLte : (k : Settings × ℕ) → IsClosedLte (λ s. steady s ≡ k)
unfolding steady
steady-IsClosedLte k = record {
  hello = record { missed = λ n s h. h; sent = λ n s h. h };
  down = λ s h. h;
  reset = λ s h. h;
}

handle_signals-Holds :
    (os : Os) (s : State)
    → RunHolds
        (λ s'.
          (is_stop s.runtime.signal ≡ false)
          × (s'.runtime.signal ≡ 0)
          × (settings_of s'.runtime ≡ settings_of s.runtime))
        (λ code x. (code ≡ 0) × (is_stop s.runtime.signal ≡ true))
        (handle_signals os s)
unfolding handle_signals
handle_signals-Holds os s = elim (Bool-cases (s.runtime.signal != 0)) [
  | inr e ↦ let zero : s.runtime.signal ≡ 0 = ground arith in simp e (simp zero refl, zero, refl)
  | inl e ↦ elim (Bool-cases (s.runtime.signal == sigint || s.runtime.signal == sigterm)) [
    | inl d ↦ simp (e, d) (refl, refl)
    | inr d ↦ simp (e, d) (refl, refl, refl)
  ]
]

steady-signal : (s s' : State) → steady s' ≡ steady s → s'.runtime.signal ≡ s.runtime.signal
unfolding steady
steady-signal s s' e = ap (λ p. p.1) e

steady-settings :
    (s s' : State) → steady s' ≡ steady s → settings_of s'.runtime ≡ settings_of s.runtime
unfolding steady
steady-settings s s' e = ap (λ p. p.0) e

-- How execute_timers may end the process from a state, and in which one.
abbrev pub EndsAs : Os → State → ℕ → State → Type 0
EndsAs os s code x =
    ((code ≡ 0) × (is_stop s.runtime.signal ≡ true))
    ⊎ ((code ≡ 1) × SocketFailed os x × (s.runtime.bonding ≡ true))

-- What it leaves behind: no signal that ends the process was waiting, none is waiting any more,
-- and the configuration is the same.
abbrev pub Continues : State → State → Type 0
Continues s s' =
    (is_stop s.runtime.signal ≡ false)
    × (s'.runtime.signal ≡ 0)
    × (settings_of s'.runtime ≡ settings_of s.runtime)

-- The signals, at a state that is steady since another one.
signals-ends :
    (os : Os) (s s2 : State)
    → steady s2 ≡ steady s
    → RunHolds (Continues s) (EndsAs os s) (handle_signals os s2)
signals-ends os s s2 e =
    let same = ap is_stop (steady-signal s s2 e) in
    RunHolds-map (Continues s2) (Continues s)
      (λ code x. (code ≡ 0) × (is_stop s2.runtime.signal ≡ true)) (EndsAs os s)
      (handle_signals os s2) (handle_signals-Holds os s2)
      (λ s3 (stop, handled, settings).
        (sym same ∙ stop, handled, settings ∙ steady-settings s s2 e))
      (λ code x (zero, stop). inl (zero, sym same ∙ stop))

-- execute_timers, from any state: it goes on only if neither SIGINT nor SIGTERM was waiting, and then
-- leaves the configuration as it was and no signal waiting. It ends the process with 0 only for such
-- a signal, and with 1 only in bonding mode and when a call for the socket of the data plane failed.
pub execute_timers-ends :
    (os : Os) (s : State) → RunHolds (Continues s) (EndsAs os s) (execute_timers os s)
unfolding execute_timers
execute_timers-ends os s =
    let t = tunnel_device os (reset_stats os (keep_tunnels os s)) in
    let closed = steady-IsClosed os (steady s) in
    let e = before_threads-keeps os _ closed s (steady-IsClosedLte (steady s)) refl in
    let bonding = ap (λ x. x.bonding) (steady-settings s t e) in
    RunHolds-bind (λ s1. steady s1 ≡ steady s) (Continues s) (EndsAs os s) (data_threads os t) _
      (RunHolds-of_last (λ s1. steady s1 ≡ steady s) (EndsAs os s) (data_threads os t)
        (RunHolds-map (λ s1. Unit) (λ s1. Unit) (FailsBonding os t) (EndsAs os s)
          (data_threads os t) (data_threads-Fails os t) (λ s1 h. h)
          (λ code x (one, fails, b). inr (one, fails, sym bonding ∙ b)))
        (data_threads-keeps os _ closed t e))
      (λ s1 h.
        signals-ends os s (expire_leases os (dhcp_clients os s1))
          (before_signals-keeps os _ closed s1 h))
