-- ===== src/Reorder/Order.antt =====
-- The flushing loops of gre2tun_main write in ascending order and never touch freed memory, as long
-- as the numbers in the buffer are distinct, below the largest, and none has timed out too late.
use open_hybrid.Base.{
  ℕ, ◌+◌, ◌≤◌, ◌<◌, ◌≡◌, ◌≢◌, inl, inr, refl, ap, true, false, List, [], ◌∷◌, ◌++◌, ◌==◌, ==_iff,
  arith, Bool-cases, All, Holds, Holds-bind,
}
use open_hybrid.Bytes.{IsU32}
use open_hybrid.Runtime.{Timeval, Interval}
use open_hybrid.Reorder.{
  Element, Pass, Write, direct, ordered, next, release, flush_pass, timed_out,
}
use open_hybrid.Reorder.Steps.{flush_pass_hit, flush_pass_miss, flushed_first, kept_first}

-- The numbers written are at least `lo`, strictly ascending, and below `hi`.
abbrev pub Ascending : ℕ → ℕ → List Write → Type 0
Ascending lo hi [] = lo ≤ hi
Ascending lo hi (direct b ∷ ws) = Ascending lo hi ws
Ascending lo hi (ordered q b ∷ ws) = (lo ≤ q) × Ascending (q + 1) hi ws

pub Ascending-weaken :
    (lo lo' hi : ℕ) (ws : List Write) → lo' ≤ lo → Ascending lo hi ws → Ascending lo' hi ws
Ascending-weaken lo lo' hi [] h a = omega arith
Ascending-weaken lo lo' hi (direct b ∷ ws) h a = Ascending-weaken lo lo' hi ws h a
Ascending-weaken lo lo' hi (ordered q b ∷ ws) h (l, a) = (omega arith, a)

pub Ascending-append :
    (lo mid hi : ℕ) (xs ys : List Write)
    → Ascending lo mid xs
    → Ascending mid hi ys
    → Ascending lo hi (xs ++ ys)
Ascending-append lo mid hi [] ys a b = Ascending-weaken mid lo hi ys a b
Ascending-append lo mid hi (direct x ∷ xs) ys a b = Ascending-append lo mid hi xs ys a b
Ascending-append lo mid hi (ordered q x ∷ xs) ys (l, a) b =
    (l, Ascending-append (q + 1) mid hi xs ys a b)

abbrev pub numbers : List Element → List ℕ
numbers [] = []
numbers (e ∷ rest) = e.sequence ∷ numbers rest

abbrev pub Fresh : ℕ → List ℕ → Type 0
Fresh q qs = All (λ r. r ≢ q) qs

abbrev pub Distinct : List ℕ → Type 0
Distinct [] = Unit
Distinct (q ∷ qs) = Fresh q qs × Distinct qs

-- What the buffer keeps of each element, when `n` is the awaited number: only one with a smaller
-- number is freed, only one that is not freed has a size, and no number is the largest.
pub record IsSafe (n : ℕ) (e : Element) : Type 0 where
  pub freed : e.allocated ≡ false → e.sequence < n
  pub sized : 0 < e.size → e.allocated ≡ true
  pub below_max : e.sequence < 4294967295

-- An element that has timed out is one that can still be awaited.
abbrev pub IsPatient : Timeval → Interval → ℕ → Element → Type 0
IsPatient now timeout n e = timed_out now timeout e ≡ true → n ≤ e.sequence

pub IsSafe-mono :
    (n m : ℕ) (packets : List Element) → n ≤ m → All (IsSafe n) packets → All (IsSafe m) packets
IsSafe-mono n m [] h s = tt
IsSafe-mono n m (e ∷ rest) h (s, ss) = (ground arith, IsSafe-mono n m rest h ss)

module _ (now : Timeval) (timeout : Interval) where
  pub record InOrder (packets : List Element) (n : ℕ) (p : Pass) : Type 0 where
    pub safe : All (IsSafe (next p.flushed)) p.packets
    pub same : numbers p.packets ≡ numbers packets
    pub patient : All (IsPatient now timeout (next p.flushed)) p.packets
    pub ascending : Ascending n (next p.flushed) p.written
    pub forward : n ≤ next p.flushed
    pub small : IsU32 p.flushed
    pub bounded : (q : ℕ) → n ≤ q → Fresh q (numbers packets) → next p.flushed ≤ q

  -- The awaited number moves past `n`, which no other element has.
  IsPatient-next :
      (n m : ℕ) (packets : List Element)
      → m ≡ n + 1
      → Fresh n (numbers packets)
      → All (IsPatient now timeout n) packets
      → All (IsPatient now timeout m) packets
  IsPatient-next n m [] e f p = tt
  IsPatient-next n m (x ∷ rest) e (f, fs) (p, ps) =
      (λ t. omega (arith, p t), IsPatient-next n m rest e fs ps)

  not_timed_out : (e : Element) → timed_out now timeout (release e) ≡ true → ⊥
  unfolding timed_out
  not_timed_out e h = ground arith

  hit-InOrder :
      (e : Element) (rest : List Element) (n m : ℕ) (p : Pass)
      → e.sequence ≡ n
      → m ≡ n + 1
      → IsSafe n e
      → InOrder rest m p
      → InOrder (e ∷ rest) n (flushed_first e p)
  hit-InOrder e rest n m p hit up s o = record {
    safe = (
      record {
        freed = λ _. omega (arith, o.forward);
        sized = λ h. absurd (omega arith);
        below_max = s.below_max;
      },
      o.safe,
    );
    same = ap (◌∷◌ e.sequence) o.same;
    patient = (λ t. absurd (not_timed_out e t), o.patient);
    ascending =
        (omega arith, Ascending-weaken m (e.sequence + 1) _ p.written (omega arith) o.ascending);
    forward = omega (arith, o.forward);
    small = o.small;
    bounded = λ q h f. o.bounded q (omega (arith, f.0)) f.1;
  }

  miss-InOrder :
      (e : Element) (rest : List Element) (n : ℕ) (p : Pass)
      → IsSafe n e
      → Fresh e.sequence (numbers rest)
      → IsPatient now timeout n e
      → InOrder rest n p
      → InOrder (e ∷ rest) n (kept_first e p)
  miss-InOrder e rest n p s f patient o = record {
    safe = (
      record {
        freed = λ h. omega (arith, s.freed h, o.forward);
        sized = s.sized;
        below_max = s.below_max;
      },
      o.safe,
    );
    same = ap (◌∷◌ e.sequence) o.same;
    patient = (λ t. o.bounded e.sequence (patient t) f, o.patient);
    ascending = o.ascending;
    forward = o.forward;
    small = o.small;
    bounded = λ q h f. o.bounded q h f.1;
  }

  pub flush_pass-InOrder :
      (packets : List Element) (flushed : ℕ)
      → IsU32 flushed
      → All (IsSafe (next flushed)) packets
      → Distinct (numbers packets)
      → All (IsPatient now timeout (next flushed)) packets
      → Holds ⊥ Unit (InOrder packets (next flushed)) (flush_pass packets flushed)
  flush_pass-InOrder [] flushed u s d p =
      unfold flush_pass in
      record {
        safe = tt;
        same = refl;
        patient = tt;
        ascending = omega arith;
        forward = omega arith;
        small = u;
        bounded = λ q h _. h;
      }
  flush_pass-InOrder (e ∷ rest) flushed u (s, ss) (d, ds) (p, ps) =
      elim (Bool-cases (e.sequence == next flushed)) [
        | inl hit ↦ elim (Bool-cases e.allocated) [
          | inl here ↦ rw (flush_pass_hit e rest flushed hit here) (
              Holds-bind ⊥ Unit (InOrder rest (next (next flushed)))
                (InOrder (e ∷ rest) (next flushed)) (flush_pass rest (next flushed)) _
                (flush_pass-InOrder rest (next flushed) (omega arith)
                  (IsSafe-mono (next flushed) _ rest (ground (arith, up hit)) ss) ds
                  (IsPatient-next (next flushed) _ rest (up hit) (rw ((==_iff _ _).0 hit) at d) ps))
                (λ q o. hit-InOrder e rest (next flushed) _ q ((==_iff _ _).0 hit) (up hit) s o))
          | inr gone ↦ absurd (omega (arith, s.freed gone, (==_iff _ _).0 hit))
        ]
        | inr miss ↦ rw (flush_pass_miss e rest flushed miss) (
            Holds-bind ⊥ Unit (InOrder rest (next flushed)) (InOrder (e ∷ rest) (next flushed))
              (flush_pass rest flushed) _ (flush_pass-InOrder rest flushed u ss ds ps)
              (λ q o. miss-InOrder e rest (next flushed) q s d p o))
      ]
    where
      up : (e.sequence == next flushed) ≡ true → next (next flushed) ≡ next flushed + 1
      up hit = omega (arith, (==_iff _ _).0 hit, s.below_max)
