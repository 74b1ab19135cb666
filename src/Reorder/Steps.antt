-- ===== src/Reorder/Steps.antt =====
-- The steps of the flushing loops of gre2tun_main, as equations by the test that decides them.
use open_hybrid.Base.{
  ℕ, suc, ◌≡◌, refl, true, false, List, [], ◌∷◌, ◌++◌, ok, fault, ◌>>=◌, take, ◌==◌,
}
use open_hybrid.Runtime.{Timeval, Interval}
use open_hybrid.Reorder.{
  Element, Pass, Write, ordered, next, release, flush_pass, flush, any_timed_out, restart_flushing,
}

-- What a pass adds for an element that it flushes, and for one that it keeps.
abbrev pub flushed_first : Element → Pass → Pass
flushed_first e p = record p {
  packets = release e ∷ p.packets;
  written = ordered e.sequence (take e.size e.packet) ∷ p.written;
  progress = true;
}

abbrev pub kept_first : Element → Pass → Pass
kept_first e p = record p { packets = e ∷ p.packets }

-- What came before a later part of the flushing.
abbrev pub written_first : List Write → Pass → Pass
written_first ws q = record q { written = ws ++ q.written }

pub flush_pass_nil :
    (flushed : ℕ)
    → flush_pass [] flushed
      ≡ ok (record { packets = []; flushed = flushed; written = []; progress = false })
unfolding flush_pass
flush_pass_nil flushed = refl

module _ (e : Element) (rest : List Element) (flushed : ℕ) where
  pub flush_pass_hit :
      (e.sequence == next flushed) ≡ true
      → e.allocated ≡ true
      → flush_pass (e ∷ rest) flushed
        ≡ (flush_pass rest (next flushed) >>= λ p. ok (flushed_first e p))
  unfolding flush_pass
  flush_pass_hit hit here = rw (hit, here, flush_pass)

  pub flush_pass_gone :
      (e.sequence == next flushed) ≡ true
      → e.allocated ≡ false
      → flush_pass (e ∷ rest) flushed ≡ fault
  unfolding flush_pass
  flush_pass_gone hit gone = rw (hit, gone, flush_pass)

  pub flush_pass_miss :
      (e.sequence == next flushed) ≡ false
      → flush_pass (e ∷ rest) flushed ≡ (flush_pass rest flushed >>= λ p. ok (kept_first e p))
  unfolding flush_pass
  flush_pass_miss miss = rw (miss, flush_pass)

module _ (fuel : ℕ) (now : Timeval) (timeout : Interval) (packets : List Element) (flushed : ℕ)
    (p : Pass) (flushes : flush packets flushed ≡ ok p) where
  pub restart_flushing_done :
      any_timed_out now timeout p.packets ≡ false
      → restart_flushing (suc fuel) now timeout packets flushed ≡ ok p
  unfolding restart_flushing
  restart_flushing_done young = rw flushes (rw (young, ◌>>=◌) refl)

  pub restart_flushing_again :
      any_timed_out now timeout p.packets ≡ true
      → restart_flushing (suc fuel) now timeout packets flushed ≡ (
          restart_flushing fuel now timeout p.packets (next p.flushed) >>= λ q.
          ok (written_first p.written q))
  unfolding restart_flushing
  restart_flushing_again old = rw flushes (rw (old, ◌>>=◌) refl)
