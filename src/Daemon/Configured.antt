-- ===== src/Daemon/Configured.antt =====
-- What the configuration is worth to whole runs of main (src/openhybrid.c), from the file to the event
-- script.
use open_hybrid.Base.{
  leb, ◌&&◌, ℕ, ◌≤◌, Bool, false, List, Option, none, some, ◌!=◌, if◌then◌else◌, ltb, ◌≡◌, refl,
  sym, ◌∙◌, inl, inr, Bool-cases, Post, length,
}
use mathlib.Core.Path.{subst}
use open_hybrid.Runtime.{Runtime, Event, State, Call, set_runtime, startup}
use open_hybrid.Os.{Os, called}
use open_hybrid.Event.Frame.{trigger_event-runtime}
use open_hybrid.Tundev.{Run, running, exited}
use open_hybrid.Dhcp.{written, create_dhcp_script}
use open_hybrid.Timers.Ends.{RunHolds, RunHolds-bind, RunHolds-map}
use open_hybrid.Config.{Loading, loaded, overflow, read_config}
use open_hybrid.Config.Sizes.{Within}
use open_hybrid.Daemon.{open_grecp_socket, begin, configured, main_start}

-- create_dhcp_script, from the descriptor on.
unfoldable pub made : Os → Option ℕ → State → Bool × State
made os fd s =
    let s1 = called Call.mkstemp s in
    elim fd [ none ↦ (false, s1) | some fd ↦ if ltb 0 fd then written os s1 else (false, s1) ]

made-runtime : (os : Os) (fd : Option ℕ) (s : State) → (made os fd s).1.runtime ≡ s.runtime
unfolding made written
made-runtime os none s = refl
made-runtime os (some fd) s = elim (Bool-cases (ltb 0 fd)) [
  | inl e ↦ simp e refl
  | inr e ↦ simp e refl
]

create_dhcp_script-runtime : (os : Os) (s : State) → (create_dhcp_script os s).1.runtime ≡ s.runtime
unfolding create_dhcp_script made
create_dhcp_script-runtime os s = made-runtime os (os.script_fd s.trace) s

-- open_grecp_socket, from the descriptor on.
unfoldable pub opened : Os → Option ℕ → State → Run
opened os fd s = elim fd [
  | none ↦ exited 1 (called Call.socket s)
  | some fd ↦
      let s1 = called Call.socket s in
      let s2 = called Call.setsockopt s1 in
      if os.setsockopt_done s1.trace then running (called Call.setsockopt s2) else exited 1 s2
]

-- A step that keeps `runtime`, or fails.
abbrev KeepsRuntime : State → Run → Type 0
KeepsRuntime s m = RunHolds (λ s1. s1.runtime ≡ s.runtime) (λ code x. code ≡ 1) m

opened-KeepsRuntime : (os : Os) (fd : Option ℕ) (s : State) → KeepsRuntime s (opened os fd s)
unfolding opened
opened-KeepsRuntime os none s = refl
opened-KeepsRuntime os (some fd) s =
    elim (Bool-cases (os.setsockopt_done (called Call.socket s).trace)) [
      | inl e ↦ simp e refl
      | inr e ↦ simp e refl
    ]

begin-KeepsRuntime : (os : Os) (s : State) → KeepsRuntime s (begin os s)
unfolding begin open_grecp_socket opened
begin-KeepsRuntime os s =
    let s1 = (create_dhcp_script os s).1 in
    RunHolds-bind (λ s2. s2.runtime ≡ s1.runtime) (λ s2. s2.runtime ≡ s.runtime)
      (λ code x. code ≡ 1) (opened os (os.socket_fd s1.trace) s1) _
      (opened-KeepsRuntime os (os.socket_fd s1.trace) s1)
      (λ s2 e. trigger_event-runtime startup s2 ∙ e ∙ create_dhcp_script-runtime os s)

-- What holds of every struct that is loaded, holds where the loop is entered.
module _ (P : Runtime → Type 0) where
  configured-Within :
      (os : Os) (s : State) (m : Loading)
      → Within Unit P m
      → Post Unit (RunHolds (λ s0. P s0.runtime) (λ code x. code ≡ 1)) (configured os s m)
  unfolding configured
  configured-Within os s (loaded r) h =
      let s1 = set_runtime s r in
      RunHolds-map (λ s2. s2.runtime ≡ r) (λ s2. P s2.runtime) (λ code x. code ≡ 1)
        (λ code x. code ≡ 1) (begin os s1) (begin-KeepsRuntime os s1) (λ s2 e. subst P (sym e) h)
        (λ code x one. one)
  configured-Within os s Loading.exited h = refl
  configured-Within os s overflow h = tt

  pub main_start-Within :
      (os : Os) (argc : ℕ) (file : Option (List ℕ)) (s : State)
      → Within Unit P (read_config os file s.runtime)
      → Post Unit (RunHolds (λ s0. P s0.runtime) (λ code x. code ≡ 1)) (main_start os argc file s)
  unfolding main_start
  main_start-Within os argc file s h = elim (Bool-cases (argc != 2)) [
    | inl e ↦ simp e refl
    | inr e ↦ simp e (configured-Within os s (read_config os file s.runtime) h)
  ]

-- inet_ntop shows an IPv4 address in at most 15 characters: INET_ADDRSTRLEN is 16.
abbrev pub ShowsFour : Os → Type 0
ShowsFour os = (ip : List ℕ) → length (os.inet_ntop ip) ≤ 15

-- Whether the path of the script and the text of the IPv6 prefix are short enough.
abbrev pub is_runnable : Os → Runtime → Bool
is_runnable os r =
    ltb (length r.event_script_path) 128 && leb (length (os.inet_ntop6 r.dhcp6.prefix_address)) 42
