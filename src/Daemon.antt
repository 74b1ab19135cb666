-- ===== src/Daemon.antt =====
-- main of src/openhybrid.c: the start of the process, and one round of its loop. A signal may come
-- before any round. The descriptor of the control socket is not kept.
pub mod Runs
pub mod Configured
pub mod Silence
pub mod Immortal
use open_hybrid.Base.{ℕ, List, Option, none, some, Outcome, ok, fault, ◌>>=◌, ◌!=◌, if◌then◌else◌}
use open_hybrid.Runtime.{State, Call, startup, set_runtime}
use open_hybrid.Os.{Os, called}
use open_hybrid.Event.{trigger_event}
use open_hybrid.Tundev.{Run, running, exited, ◌>>>◌}
use open_hybrid.Dhcp.{create_dhcp_script}
use open_hybrid.Config.{Loading, loaded, overflow, read_config}
use open_hybrid.Grecp.Process.{Received, receive}
use open_hybrid.Timers.{execute_timers}

-- A failing socket is fatal; where the packet filter cannot be attached, that is only logged.
unfoldable pub open_grecp_socket : Os → State → Run
open_grecp_socket os s = elim (os.socket_fd s.trace) [
  | none ↦ exited 1 (called Call.socket s)
  | some fd ↦
      let s1 = called Call.socket s in
      let s2 = called Call.setsockopt s1 in
      if os.setsockopt_done s1.trace then running (called Call.setsockopt s2) else exited 1 s2
]

-- From the configuration to the loop.
unfoldable pub begin : Os → State → Run
begin os s =
    open_grecp_socket os (create_dhcp_script os s).1 >>> λ s1. running (trigger_event startup s1)

-- What follows the reading of the configuration.
unfoldable pub configured : Os → State → Loading → Outcome Run
configured os s (loaded r) = ok (begin os (set_runtime s r))
configured os s Loading.exited = ok (Run.exited 1 s)
configured os s overflow = fault

-- The start of `main`, on a number of arguments and the file that the first one names.
unfoldable pub main_start : Os → ℕ → Option (List ℕ) → State → Outcome Run
unfolding configured
main_start os argc file s =
    if argc != 2 then ok (Run.exited 1 s) else configured os s (read_config os file s.runtime)

-- One round of the loop, from recvfrom on.
unfoldable pub main_round : Os → Received → List ℕ → State → Outcome (List ℕ × Run)
main_round os received buffer s =
    receive os received buffer s >>= λ (buffer', s'). ok (buffer', execute_timers os s')
