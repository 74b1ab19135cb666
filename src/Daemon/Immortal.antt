-- ===== src/Daemon/Immortal.antt =====
-- Rounds of the loop of main (src/openhybrid.c) in which nothing arrives, where the retry times do not
-- fit the counter of missed hello messages.
use open_hybrid.Base.{ℕ, zero, suc, ◌≤◌, ◌<◌, ◌≡◌, refl, false, true, leb, arith}
use open_hybrid.Runtime.{State}
use open_hybrid.Os.{Os}
use open_hybrid.Timers.Tunnels.{hello_lte, check_lte}
use open_hybrid.Timers.Supervision.{supervise, supervise_times}
use open_hybrid.Sections.{IsClosed, IsClosedHello}
use open_hybrid.Sections.Tunnels.{hello_lte-keeps}
use open_hybrid.Sections.Watched.{watched-IsClosed}

-- The tunnel is up, and its counter of 8 bits is below the retry times whatever it is.
abbrev pub IsImmortal : State → Type 0
IsImmortal s =
    (s.runtime.lte.tunnel_established ≡ true)
    × (s.runtime.lte.missed_hellos < 256)
    × (256 ≤ s.runtime.haap.hello_retry_times)

IsImmortal-IsClosed : (os : Os) → IsClosed os IsImmortal
IsImmortal-IsClosed os = watched-IsClosed os (λ w. (w.0 ≡ true) × (w.1 < 256) × (256 ≤ w.4))

IsImmortal-IsClosedHello : IsClosedHello IsImmortal
IsImmortal-IsClosedHello = record {
  missed = λ n s (up, m, r). (up, omega arith, r);
  sent = λ n s h. h;
}

-- The check finds too few hellos missed.
check_lte-IsImmortal : (s : State) → IsImmortal s → IsImmortal (check_lte s)
unfolding check_lte
check_lte-IsImmortal s (up, m, r) =
    let e : leb s.runtime.haap.hello_retry_times s.runtime.lte.missed_hellos ≡ false =
      ground arith in
    simp (up, e) (refl, m, r)

-- The supervision alone, round by round.
supervise_times-IsImmortal :
    (os : Os) (n : ℕ) (s : State) → IsImmortal s → IsImmortal (supervise_times os n s)
unfolding supervise_times
supervise_times-IsImmortal os zero s h = h
supervise_times-IsImmortal os (suc n) s h = supervise_times-IsImmortal os n (supervise os s) (
    check_lte-IsImmortal (hello_lte os s)
      (hello_lte-keeps os IsImmortal (IsImmortal-IsClosed os) s IsImmortal-IsClosedHello h))
