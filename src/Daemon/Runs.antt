-- ===== src/Daemon/Runs.antt =====
-- Whole runs of main (src/openhybrid.c), as sequences of steps: how a round ends, and the
-- configuration over all rounds.
use open_hybrid.Base.{
  ℕ, true, List, ok, ◌≡◌, refl, ap, sym, ◌∙◌, inl, inr, arith, Post, Post-bind, Post-weaken,
}
use mathlib.Core.Path.{subst}
use open_hybrid.Runtime.{State, settings_of}
use open_hybrid.Os.{Os}
use open_hybrid.Tundev.{running}
use open_hybrid.Grecp.Process.{Received, nothing, packet, receive}
use open_hybrid.Grecp.Table.{Keeps, Reaches-self}
use open_hybrid.Grecp.Guard.{receive-IsReceivedAs}
use open_hybrid.Timers.{execute_timers}
use open_hybrid.Timers.Session.{handle_signal}
use open_hybrid.Timers.Ends.{
  RunHolds, RunHolds-map, is_stop, EndsAs, Continues, execute_timers-ends,
}
use open_hybrid.Daemon.{main_round}

-- A step of the loop that does not end the process: a signal arrives, or a round goes by.
pub data Step (os : Os) (buffer : List ℕ) (s : State) : List ℕ → State → Type 0 where
  signal : (sig : ℕ) → Step os buffer s buffer (handle_signal sig s)
  round :
      {buffer' : List ℕ} {s' : State} (received : Received)
      → main_round os received buffer s ≡ ok (buffer', running s')
      → Step os buffer s buffer' s'

pub data Steps (os : Os) (buffer : List ℕ) (s : State) : List ℕ → State → Type 0 where
  begun : Steps os buffer s buffer s
  then_step :
      {b1 b2 : List ℕ} {s1 s2 : State}
      → Steps os buffer s b1 s1
      → Step os b1 s1 b2 s2
      → Steps os buffer s b2 s2

-- What arrives leaves the configuration and the waiting signal alone.
pub receive-Keeps :
    (os : Os) (received : Received) (buffer : List ℕ) (s : State)
    → Post Unit (λ r. Keeps s (r.1)) (receive os received buffer s)
unfolding receive
receive-Keeps os nothing buffer s = (Reaches-self s).1
receive-Keeps os (packet sender bytes) buffer s =
    Post-weaken Unit _ (λ r. Keeps s (r.1)) (receive os (packet sender bytes) buffer s)
      (receive-IsReceivedAs os sender bytes buffer s) (λ r h. h.1)

-- A round from any state, whatever arrives, ends or accesses memory that C leaves undefined. It goes on
-- to the next round only if neither SIGINT nor SIGTERM was waiting, and then leaves the configuration
-- as it was and no signal waiting. It ends the process with 0 only for such a signal, and with 1 only
-- in bonding mode and if its last call was one that makes a socket or sets an option of one, and failed.
pub main_round-ends :
    (os : Os) (received : Received) (buffer : List ℕ) (s : State)
    → Post Unit (λ r. RunHolds (Continues s) (EndsAs os s) (r.1)) (main_round os received buffer s)
unfolding main_round
main_round-ends os received buffer s =
    Post-bind Unit (λ r. Keeps s (r.1)) (λ r. RunHolds (Continues s) (EndsAs os s) (r.1))
      (receive os received buffer s) _ (receive-Keeps os received buffer s)
      (λ r k.
        let same = ap is_stop k.signal in
        RunHolds-map (Continues (r.1)) (Continues s) (EndsAs os (r.1)) (EndsAs os s)
          (execute_timers os (r.1)) (execute_timers-ends os (r.1))
          (λ s2 (stop, handled, settings). (sym same ∙ stop, handled, settings ∙ k.settings))
          (λ code x ends. elim ends [
            | inl (zero, stop) ↦ inl (zero, sym same ∙ stop)
            | inr (one, fails, bonding) ↦ inr (one, fails, sym k.bonding ∙ bonding)
          ]))

-- With SIGINT or SIGTERM waiting the loop does not go on.
pub main_round-stops :
    (os : Os) (received : Received) (buffer : List ℕ) (s : State)
    → is_stop s.runtime.signal ≡ true
    → Post Unit (λ r. RunHolds (λ s2. ⊥) (EndsAs os s) (r.1)) (main_round os received buffer s)
main_round-stops os received buffer s stop =
    Post-weaken Unit (λ r. RunHolds (Continues s) (EndsAs os s) (r.1)) _
      (main_round os received buffer s) (main_round-ends os received buffer s)
      (λ r h.
        RunHolds-map (Continues s) (λ s2. ⊥) (EndsAs os s) (EndsAs os s) (r.1) h
          (λ s2 (going, handled, settings). ground arith) (λ code x ends. ends))

Step-settings :
    {os : Os} {b1 b2 : List ℕ} {s1 s2 : State}
    → Step os b1 s1 b2 s2
    → settings_of s2.runtime ≡ settings_of s1.runtime
unfolding handle_signal
Step-settings (signal sig) = refl
Step-settings {os} {b1} {b2} {s1} {s2} (round received e) =
    (subst (Post Unit (λ r. RunHolds (Continues s1) (EndsAs os s1) (r.1))) e
      (main_round-ends os received b1 s1)).2

-- The configuration is the same in every state that the loop reaches.
pub Steps-settings :
    {os : Os} {b1 : List ℕ} {s1 : State} {b2 : List ℕ} {s2 : State}
    → Steps os b1 s1 b2 s2
    → settings_of s2.runtime ≡ settings_of s1.runtime
Steps-settings begun = refl
Steps-settings (then_step steps step) = Step-settings step ∙ Steps-settings steps
