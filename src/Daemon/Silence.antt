-- ===== src/Daemon/Silence.antt =====
-- Rounds of the loop of main (src/openhybrid.c) in which nothing arrives, and what becomes of the LTE
-- tunnel in them.
use open_hybrid.Base.{
  ℕ, zero, suc, ◌+◌, ◌<◌, ◌≡◌, refl, sym, ap, ◌∙◌, inl, inr, Bool, true, List, Outcome, ok, ◌>>=◌,
  Post, Post-weaken,
}
use open_hybrid.Runtime.{State}
use open_hybrid.Os.{Os}
use open_hybrid.Tundev.{Run, running, exited}
use open_hybrid.Grecp.Process.{nothing}
use open_hybrid.Timers.{execute_timers}
use open_hybrid.Timers.Ends.{RunHolds, RunHolds-map, is_stop, EndsAs, Continues}
use open_hybrid.Sections.Tunnels.{before_hello}
use open_hybrid.Daemon.{main_round}

unfoldable pub go_on : (State → Outcome Run) → Run → Outcome Run
go_on f (running s) = f s
go_on f (exited code s) = ok (exited code s)

-- Rounds of the loop in which nothing arrives, as long as the process does not end.
unfoldable pub quiet_rounds : Os → ℕ → List ℕ → State → Outcome Run
quiet_rounds os zero buffer s = ok (running s)
quiet_rounds os (suc n) buffer s =
    main_round os nothing buffer s >>= λ (buffer', m). go_on (quiet_rounds os n buffer') m

-- In each of n rounds, a hello message is due where the timers consider it, if the tunnel is still up.
unfoldable pub IsDueFor : Os → ℕ → State → Type 0
IsDueFor os zero s = Unit
IsDueFor os (suc n) s =
    (s.runtime.lte.tunnel_established ≡ true
      → let t = before_hello os s in
        t.runtime.lte.last_hello_sent + t.runtime.haap.active_hello_interval < os.clock_sec t.trace)
    × ((s' : State) → execute_timers os s ≡ running s' → IsDueFor os n s')

-- How the process may end in rounds from a state, if it ends after the first of them.
EndsAs-next :
    (os : Os) (s s' : State) (code : ℕ) (x : State)
    → Continues s s'
    → EndsAs os s' code x
    → EndsAs os s code x
EndsAs-next os s s' code x (going, handled, settings) (inl (zero_code, stop)) =
    let stopped : is_stop 0 ≡ true = ap is_stop (sym handled) ∙ stop in cc
EndsAs-next os s s' code x (going, handled, settings) (inr (one, fails, bonding)) =
    inr (one, fails, ap (λ x. x.bonding) (sym settings) ∙ bonding)

-- A state in which the rounds end, if they go on.
abbrev pub Quiet : Os → Bool → State → Outcome Run → Type 0
Quiet os up s m = Post ⊥ (RunHolds (λ s'. s'.runtime.lte.tunnel_established ≡ up) (EndsAs os s)) m

-- A round, and those after it.
pub go_on-Quiet :
    (os : Os) (up : Bool) (s : State) (f : State → Outcome Run) (m : Run)
    → RunHolds (Continues s) (EndsAs os s) m
    → ((s' : State) → m ≡ running s' → Quiet os up s' (f s'))
    → Quiet os up s (go_on f m)
unfolding go_on
go_on-Quiet os up s f (running s') h rest =
    Post-weaken ⊥ (RunHolds (λ x. x.runtime.lte.tunnel_established ≡ up) (EndsAs os s')) _ (f s')
      (rest s' refl)
      (λ r k.
        RunHolds-map (λ x. x.runtime.lte.tunnel_established ≡ up)
          (λ x. x.runtime.lte.tunnel_established ≡ up) (EndsAs os s') (EndsAs os s) r k (λ x e. e)
          (λ code x ends. EndsAs-next os s s' code x h ends))
go_on-Quiet os up s f (exited code s') h rest = h
