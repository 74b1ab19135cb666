-- ===== src/Reorder/Delivery.antt =====
-- From one pass to the whole flushing of gre2tun_main: order, and no use of freed memory.
use open_hybrid.Base.{
  ℕ, zero, suc, ◌+◌, ◌≤◌, ◌≡◌, inl, inr, ◌∙◌, true, List, [], ◌∷◌, length, arith, Bool-cases, All,
  Holds, Holds-bind, Holds-of_Post, Post, Post-of_Holds,
}
use mathlib.Core.Path.{sym, subst}
use open_hybrid.Bytes.{IsU32}
use open_hybrid.Runtime.{Timeval, Interval}
use open_hybrid.Reorder.{
  Element, Pass, next, flush_pass, flush_loop, flush, timed_out, any_timed_out, restart_flushing,
  enough_fuel,
}
use open_hybrid.Reorder.Steps.{written_first}
use open_hybrid.Reorder.Ends.{HasU32, Passed, flush-Passed, Settled, restart_flushing-ends}
use open_hybrid.Reorder.Order.{
  Ascending, Ascending-weaken, Ascending-append, numbers, Fresh, Distinct, IsSafe, IsSafe-mono,
  IsPatient, InOrder, flush_pass-InOrder,
}

IsSafe-HasU32 : (n : ℕ) (packets : List Element) → All (IsSafe n) packets → All HasU32 packets
IsSafe-HasU32 n [] s = tt
IsSafe-HasU32 n (e ∷ rest) (s, ss) = (omega (arith, s.below_max), IsSafe-HasU32 n rest ss)

module _ (now : Timeval) (timeout : Interval) where
  InOrder-trans :
      (packets : List Element) (n : ℕ) (p q : Pass)
      → InOrder now timeout packets n p
      → InOrder now timeout p.packets (next p.flushed) q
      → InOrder now timeout packets n (written_first p.written q)
  InOrder-trans packets n p q a b = record {
    safe = b.safe;
    same = b.same ∙ a.same;
    patient = b.patient;
    ascending =
        Ascending-append n (next p.flushed) (next q.flushed) p.written q.written a.ascending
          b.ascending;
    forward = omega (arith, a.forward, b.forward);
    small = b.small;
    bounded = λ x h f. b.bounded x (a.bounded x h f) (subst (Fresh x) (sym a.same) f);
  }

  flush_loop-InOrder :
      (fuel : ℕ) (packets : List Element) (flushed : ℕ)
      → IsU32 flushed
      → All (IsSafe (next flushed)) packets
      → Distinct (numbers packets)
      → All (IsPatient now timeout (next flushed)) packets
      → Holds ⊥ Unit (InOrder now timeout packets (next flushed)) (flush_loop fuel packets flushed)
  unfolding flush_loop
  flush_loop-InOrder zero packets flushed u s d p = tt
  flush_loop-InOrder (suc fuel) packets flushed u s d p =
      Holds-bind ⊥ Unit (InOrder now timeout packets (next flushed))
        (InOrder now timeout packets (next flushed)) (flush_pass packets flushed) _
        (flush_pass-InOrder now timeout packets flushed u s d p)
        (λ r a. elim (Bool-cases r.progress) [
          | inl on ↦ rw on (
              Holds-bind ⊥ Unit (InOrder now timeout r.packets (next r.flushed))
                (InOrder now timeout packets (next flushed)) _ _
                (flush_loop-InOrder fuel r.packets r.flushed a.small a.safe
                  (subst Distinct (sym a.same) d) a.patient)
                (λ q b. InOrder-trans packets (next flushed) r q a b))
          | inr off ↦ rw off a
        ])

  -- A flush keeps the order, and leaves no element with the awaited number.
  flush-InOrder :
      (packets : List Element) (flushed : ℕ)
      → IsU32 flushed
      → All (IsSafe (next flushed)) packets
      → Distinct (numbers packets)
      → All (IsPatient now timeout (next flushed)) packets
      → Post ⊥
          (λ q. InOrder now timeout packets (next flushed) q × All (Passed q.flushed) q.packets)
          (flush packets flushed)
  unfolding flush
  flush-InOrder packets flushed u s d p =
      Post-of_Holds ⊥ Unit (InOrder now timeout packets (next flushed))
        (λ q. All (Passed q.flushed) q.packets) _
        (flush_loop-InOrder (suc (length packets)) packets flushed u s d p)
        (flush-Passed packets flushed (IsSafe-HasU32 (next flushed) packets s))

  -- What holds of the flushing with its restarts, which may pass numbers that never came.
  pub record Delivered (packets : List Element) (n : ℕ) (p : Pass) : Type 0 where
    pub safe : All (IsSafe (next p.flushed)) p.packets
    pub same : numbers p.packets ≡ numbers packets
    pub ascending : Ascending n (next p.flushed) p.written
    pub forward : n ≤ next p.flushed
    pub small : IsU32 p.flushed

  -- After a flush the awaited number may be given up: an element that has timed out has a larger one.
  any_timed_out_room :
      (packets : List Element) (flushed : ℕ)
      → any_timed_out now timeout packets ≡ true
      → All (IsSafe (next flushed)) packets
      → All (IsPatient now timeout (next flushed)) packets
      → All (Passed flushed) packets
      → next (next flushed) ≡ next flushed + 1
  unfolding any_timed_out
  any_timed_out_room [] flushed any s p x = cc
  any_timed_out_room (e ∷ rest) flushed any (s, ss) (p, ps) (x, xs) =
      elim (Bool-cases (timed_out now timeout e)) [
        | inl old ↦ omega (arith, p old, s.below_max)
        | inr young ↦ any_timed_out_room rest flushed (rw (young, any_timed_out) at any) ss ps xs
      ]

  IsPatient-Passed :
      (flushed m : ℕ) (packets : List Element)
      → m ≡ next flushed + 1
      → All (Passed flushed) packets
      → All (IsPatient now timeout (next flushed)) packets
      → All (IsPatient now timeout m) packets
  IsPatient-Passed flushed m [] e x p = tt
  IsPatient-Passed flushed m (a ∷ rest) e (x, xs) (p, ps) =
      (λ t. omega (arith, p t), IsPatient-Passed flushed m rest e xs ps)

  restart_flushing-Delivered :
      (fuel : ℕ) (packets : List Element) (flushed : ℕ)
      → IsU32 flushed
      → All (IsSafe (next flushed)) packets
      → Distinct (numbers packets)
      → All (IsPatient now timeout (next flushed)) packets
      → Holds ⊥ Unit
          (Delivered packets (next flushed))
          (restart_flushing fuel now timeout packets flushed)
  unfolding restart_flushing
  restart_flushing-Delivered zero packets flushed u s d p = tt
  restart_flushing-Delivered (suc fuel) packets flushed u s d p =
      Holds-bind ⊥ Unit
        (λ q. InOrder now timeout packets (next flushed) q × All (Passed q.flushed) q.packets)
        (Delivered packets (next flushed)) (flush packets flushed) _
        (Holds-of_Post ⊥
          (λ q. InOrder now timeout packets (next flushed) q × All (Passed q.flushed) q.packets)
          (flush packets flushed) (flush-InOrder packets flushed u s d p))
        (λ r (a, x). elim (Bool-cases (any_timed_out now timeout r.packets)) [
          | inl old ↦ rw old (
              let up = any_timed_out_room r.packets r.flushed old a.safe a.patient x in
              Holds-bind ⊥ Unit (Delivered r.packets (next (next r.flushed)))
                (Delivered packets (next flushed)) _ _
                (restart_flushing-Delivered fuel r.packets (next r.flushed) (omega arith)
                  (IsSafe-mono (next r.flushed) _ r.packets (omega arith) a.safe)
                  (subst Distinct (sym a.same) d)
                  (IsPatient-Passed r.flushed _ r.packets up x a.patient))
                (λ q b. record {
                  safe = b.safe;
                  same = b.same ∙ a.same;
                  ascending =
                      Ascending-append (next flushed) (next r.flushed) (next q.flushed) r.written
                        q.written a.ascending
                        (Ascending-weaken (next (next r.flushed)) (next r.flushed) (next q.flushed)
                          q.written (omega arith) b.ascending);
                  forward = omega (arith, a.forward, b.forward);
                  small = b.small;
                }))
          | inr young ↦ rw young (record {
            safe = a.safe;
            same = a.same;
            ascending = a.ascending;
            forward = a.forward;
            small = a.small;
          })
        ])

  -- The flushing of a round with its restarts, on a buffer of distinct numbers below the largest,
  -- in which only smaller numbers than the awaited one are freed, and an element that has timed out
  -- can still be awaited: it ends without touching freed memory, writes in ascending order from the
  -- awaited number on, and leaves no element that has timed out.
  pub restart_flushing-delivers :
      (packets : List Element) (flushed : ℕ)
      → IsU32 flushed
      → All (IsSafe (next flushed)) packets
      → Distinct (numbers packets)
      → All (IsPatient now timeout (next flushed)) packets
      → Post ⊥
          (λ q. Delivered packets (next flushed) q × Settled now timeout q)
          (restart_flushing (enough_fuel packets) now timeout packets flushed)
  restart_flushing-delivers packets flushed u s d p =
      Post-of_Holds ⊥ Unit (Delivered packets (next flushed)) (Settled now timeout) _
        (restart_flushing-Delivered (enough_fuel packets) packets flushed u s d p)
        (restart_flushing-ends now timeout packets flushed (IsSafe-HasU32 (next flushed) packets s))
