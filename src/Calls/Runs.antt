-- ===== src/Calls/Runs.antt =====
-- The calls of the main thread in whole runs of main (src/openhybrid.c), from the start of the
-- process on.
use open_hybrid.Base.{
  ℕ, ◌≡◌, refl, sym, ◌∙◌, Option, none, some, List, [], ◌∷◌, All, ok, ltb, ◌!=◌, inl, inr,
  Bool-cases, Post, Post-bind, Post-weaken,
}
use mathlib.Core.Path.{subst}
use open_hybrid.Runtime.{
  State, Settings, Call, settings_of, other_calls, clock_gettime, set_runtime, startup,
}
use open_hybrid.Os.{Os, called}
use open_hybrid.Event.{trigger_event}
use open_hybrid.Tundev.{running}
use open_hybrid.Dhcp.{written, create_dhcp_script}
use open_hybrid.Config.{Loading, loaded, overflow, read_config}
use open_hybrid.Grecp.Process.{Received, receive}
use open_hybrid.Grecp.Table.{Keeps}
use open_hybrid.Timers.Session.{handle_signal, reset_haap}
use open_hybrid.Daemon.{open_grecp_socket, begin, configured, main_start, main_round}
use open_hybrid.Daemon.Runs.{Step, signal, round, Steps, begun, then_step, receive-Keeps}
use open_hybrid.Daemon.Configured.{made, opened}
use open_hybrid.Calls.{Permitted, IsLawful, IsLawful-calls, IsLawful-settings}
use open_hybrid.Sections.{IsClosed, IsClosedLte, IsClosedSignal}
use open_hybrid.Sections.Devices.{trigger_event-keeps}
use open_hybrid.Sections.Session.{last_state, >>>-keeps}
use open_hybrid.Sections.Whole.{execute_timers-keeps}

-- Every update of execute_timers keeps the configuration, and makes only permitted calls.
IsLawful-IsClosed : (c : Settings) (os : Os) → IsClosed os (IsLawful c)
unfolding IsLawful reset_haap
IsLawful-IsClosed c os = record {
  call = λ x s p h. (h.0, (subst (λ k. Permitted k x) (h.0) p, h.1));
  lte_ip = λ s h. (h.0, (tt, h.1));
  dsl_ip = λ s h. (h.0, (tt, h.1));
  acked = λ b s h. h;
  verification = λ b s h. h;
  dsl_missed = λ n s h. h;
  dsl_sent = λ n s h. h;
  dsl_down = λ s h. h;
  dsl_reset = λ s h. h;
  bypass = λ n s h. h;
  session = λ s h. h;
  dhcp = λ d s h. h;
  dhcp6 = λ d s h. h;
  created = λ b s h. h;
  gre2tun = λ n s h. h;
  tun2gre = λ n s h. h;
  gre_socket = λ n s h. h;
  tun_socket = λ fd s h. h;
}

IsLawful-IsClosedLte : (c : Settings) → IsClosedLte (IsLawful c)
unfolding IsLawful
IsLawful-IsClosedLte c = record {
  hello = record { missed = λ n s h. h; sent = λ n s h. h };
  down = λ s h. h;
  reset = λ s h. h;
}

IsLawful-IsClosedSignal : (c : Settings) → IsClosedSignal (IsLawful c)
unfolding IsLawful
IsLawful-IsClosedSignal c s h = h

module _ (c : Settings) where
  All-other_calls :
      (calls : List Call) → All (Permitted c) calls → All (Permitted c) (other_calls calls)
  All-other_calls [] h = tt
  All-other_calls (clock_gettime ∷ calls) h = All-other_calls calls (h.1)
  All-other_calls (call ∷ calls) h = (h.0, All-other_calls calls (h.1))

  -- The clock may always be read.
  All-of_other_calls :
      (calls : List Call) → All (Permitted c) (other_calls calls) → All (Permitted c) calls
  All-of_other_calls [] h = tt
  All-of_other_calls (clock_gettime ∷ calls) h = (tt, All-of_other_calls calls h)
  All-of_other_calls (call ∷ calls) h = (h.0, All-of_other_calls calls (h.1))

  -- A control message that arrives.
  Keeps-IsLawful : (s s' : State) → Keeps s s' → IsLawful c s → IsLawful c s'
  unfolding IsLawful
  Keeps-IsLawful s s' k h = (
    k.settings ∙ h.0,
    All-of_other_calls s'.trace
        (subst (All (Permitted c)) (sym k.calls) (All-other_calls s.trace (h.1))),
  )

  module _ (os : Os) where
    main_round-IsLawful :
        (received : Received) (buffer : List ℕ) (s : State)
        → IsLawful c s
        → Post Unit (λ r. IsLawful c (last_state (r.1))) (main_round os received buffer s)
    unfolding main_round
    main_round-IsLawful received buffer s h =
        Post-bind Unit (λ r. Keeps s (r.1)) (λ r. IsLawful c (last_state (r.1)))
          (receive os received buffer s) _ (receive-Keeps os received buffer s)
          (λ r k.
            execute_timers-keeps os (IsLawful c) (IsLawful-IsClosed c os) (r.1)
              (IsLawful-IsClosedLte c) (IsLawful-IsClosedSignal c) (Keeps-IsLawful s (r.1) k h))

    made-IsLawful : (fd : Option ℕ) (s : State) → IsLawful c s → IsLawful c (made os fd s).1
    unfolding made written IsLawful
    made-IsLawful none s h = (h.0, (tt, h.1))
    made-IsLawful (some fd) s h = elim (Bool-cases (ltb 0 fd)) [
      | inl e ↦ simp e (h.0, (tt, (tt, (tt, (tt, h.1)))))
      | inr e ↦ simp e (h.0, (tt, h.1))
    ]

    opened-IsLawful :
        (fd : Option ℕ) (s : State) → IsLawful c s → IsLawful c (last_state (opened os fd s))
    unfolding opened IsLawful
    opened-IsLawful none s h = (h.0, (tt, h.1))
    opened-IsLawful (some fd) s h =
        elim (Bool-cases (os.setsockopt_done (called Call.socket s).trace)) [
          | inl e ↦ simp e (h.0, (tt, (tt, (tt, h.1))))
          | inr e ↦ simp e (h.0, (tt, (tt, h.1)))
        ]

    begin-IsLawful : (s : State) → IsLawful c s → IsLawful c (last_state (begin os s))
    unfolding begin create_dhcp_script made open_grecp_socket opened
    begin-IsLawful s h =
        let s1 = (made os (os.script_fd s.trace) s).1 in
        >>>-keeps (IsLawful c) (opened os (os.socket_fd s1.trace) s1)
          (λ s2. running (trigger_event startup s2))
          (opened-IsLawful (os.socket_fd s1.trace) s1 (made-IsLawful (os.script_fd s.trace) s h))
          (λ s2 h2. trigger_event-keeps os (IsLawful c) (IsLawful-IsClosed c os) startup s2 h2)

-- Lawful under the configuration that it has itself.
abbrev IsFaithful : State → Type 0
IsFaithful s = IsLawful (settings_of s.runtime) s

IsFaithful-of_IsLawful : (c : Settings) (s : State) → IsLawful c s → IsFaithful s
IsFaithful-of_IsLawful c s h = subst (λ x. IsLawful x s) (sym (IsLawful-settings c s h)) h

fresh-IsFaithful : (s : State) → s.trace ≡ [] → IsFaithful s
unfolding IsLawful
fresh-IsFaithful s e = (refl, subst (All (Permitted (settings_of s.runtime))) (sym e) tt)

configured-IsFaithful :
    (os : Os) (s : State) (m : Loading)
    → s.trace ≡ []
    → Post Unit (λ m. IsFaithful (last_state m)) (configured os s m)
unfolding configured
configured-IsFaithful os s (loaded r) e =
    IsFaithful-of_IsLawful (settings_of r) (last_state (begin os (set_runtime s r)))
      (begin-IsLawful (settings_of r) os (set_runtime s r) (fresh-IsFaithful (set_runtime s r) e))
configured-IsFaithful os s Loading.exited e = fresh-IsFaithful s e
configured-IsFaithful os s overflow e = tt

main_start-IsFaithful :
    (os : Os) (argc : ℕ) (file : Option (List ℕ)) (s : State)
    → s.trace ≡ []
    → Post Unit (λ m. IsFaithful (last_state m)) (main_start os argc file s)
unfolding main_start
main_start-IsFaithful os argc file s e = elim (Bool-cases (argc != 2)) [
  | inl d ↦ simp d (fresh-IsFaithful s e)
  | inr d ↦ simp d (configured-IsFaithful os s (read_config os file s.runtime) e)
]

Step-IsLawful :
    (c : Settings) {os : Os} {b1 b2 : List ℕ} {s1 s2 : State}
    → Step os b1 s1 b2 s2
    → IsLawful c s1
    → IsLawful c s2
unfolding handle_signal IsLawful
Step-IsLawful c (signal sig) h = h
Step-IsLawful c {os} {b1} {b2} {s1} {s2} (round received e) h =
    subst (Post Unit (λ r. IsLawful c (last_state (r.1)))) e
      (main_round-IsLawful c os received b1 s1 h)

Steps-IsLawful :
    (c : Settings) {os : Os} {b1 : List ℕ} {s1 : State} {b2 : List ℕ} {s2 : State}
    → Steps os b1 s1 b2 s2
    → IsLawful c s1
    → IsLawful c s2
Steps-IsLawful c begun h = h
Steps-IsLawful c (then_step steps step) h = Step-IsLawful c step (Steps-IsLawful c steps h)

-- The process starts without a call made, with any configuration file, and the loop runs over any
-- rounds, with any signals: all calls of the main thread so far are permitted under the configuration
-- that it started with, and so are those of one more round, whatever arrives in it, also if it ends
-- the process, unless it accesses memory that C leaves undefined. The threads of the data plane, which
-- the main thread starts, make calls of their own, and nothing is said of these.
pub main-calls :
    (os : Os) (file : Option (List ℕ)) (buffer : List ℕ) (s s0 : State) (b1 : List ℕ) (s1 : State)
    (received : Received)
    → s.trace ≡ []
    → main_start os 2 file s ≡ ok (running s0)
    → Steps os buffer s0 b1 s1
    → All (Permitted (settings_of s0.runtime)) s1.trace
      × Post Unit
          (λ r. All (Permitted (settings_of s0.runtime)) (last_state (r.1)).trace)
          (main_round os received b1 s1)
main-calls os file buffer s s0 b1 s1 received fresh e steps =
    let c = settings_of s0.runtime in
    let started : IsLawful c s0 =
      subst (Post Unit (λ m. IsFaithful (last_state m))) e
        (main_start-IsFaithful os 2 file s fresh) in
    let h = Steps-IsLawful c steps started in
    (
      IsLawful-calls c s1 h,
      Post-weaken Unit (λ r. IsLawful c (last_state (r.1)))
          (λ r. All (Permitted c) (last_state (r.1)).trace) (main_round os received b1 s1)
          (main_round-IsLawful c os received b1 s1 h)
          (λ r h2. IsLawful-calls c (last_state (r.1)) h2),
    )
