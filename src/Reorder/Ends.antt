-- ===== src/Reorder/Ends.antt =====
-- The flushing loops of gre2tun_main end, whatever stands in the reorder buffer.
use open_hybrid.Base.{
  ℕ, zero, suc, ◌+◌, ◌-◌, ◌*◌, ◌%◌, ◌≤◌, ◌<◌, ◌≡◌, ◌≢◌, ◌⊎◌, inl, inr, refl, ap, Bool, true, false,
  List, [], ◌∷◌, length, ◌==◌, if◌then◌else◌, arith, Bool-cases, All, Post, Post-bind, Post-weaken,
}
use mathlib.Core.Path.{ap₂}
use open_hybrid.Bytes.{IsU32}
use open_hybrid.Runtime.{Timeval, Interval}
use open_hybrid.Reorder.Steps.{flush_pass_hit, flush_pass_gone, flush_pass_miss}
use open_hybrid.Reorder.{
  Element, Pass, next, flush_pass, flush_loop, flush, timed_out, any_timed_out, restart_flushing,
  enough_fuel,
}

-- The number of elements that are not freed.
abbrev live_one : Bool → ℕ
live_one true = 1
live_one false = 0

abbrev live : List Element → ℕ
live [] = 0
live (e ∷ rest) = live_one e.allocated + live rest

live-le-length : (packets : List Element) → live packets ≤ length packets
live-le-length [] = omega arith
live-le-length (e ∷ rest) = ground (arith, live-le-length rest)

abbrev pub HasU32 : Element → Type 0
HasU32 e = IsU32 e.sequence

abbrev pub Passed : ℕ → Element → Type 0
Passed flushed e = e.sequence ≢ next flushed

-- A pass frees an element, or changes nothing and has not met the awaited number.
abbrev Shrinks : List Element → ℕ → Pass → Type 0
Shrinks packets flushed p =
    ((p.progress ≡ true) × (live p.packets < live packets))
    ⊎ ((p.progress ≡ false)
        × (p.packets ≡ packets)
        × (p.flushed ≡ flushed)
        × All (Passed flushed) packets)

abbrev PassOk : List Element → ℕ → Pass → Type 0
PassOk packets flushed p =
    All HasU32 p.packets
    × (length p.packets ≡ length packets)
    × (live p.packets ≤ live packets)
    × Shrinks packets flushed p

flush_pass-PassOk :
    (packets : List Element) (flushed : ℕ)
    → All HasU32 packets
    → Post Unit (PassOk packets flushed) (flush_pass packets flushed)
flush_pass-PassOk [] flushed h =
    unfold flush_pass in (tt, refl, omega arith, inr (refl, refl, refl, tt))
flush_pass-PassOk (e ∷ rest) flushed (h, hs) = elim (Bool-cases (e.sequence == next flushed)) [
  | inl hit ↦ elim (Bool-cases e.allocated) [
    | inl here ↦ rw (flush_pass_hit e rest flushed hit here) (
        Post-bind Unit (PassOk rest (next flushed)) (PassOk (e ∷ rest) flushed) _ _
          (flush_pass-PassOk rest (next flushed) hs)
          (λ p (u, len, le, _). ((h, u), omega arith, ground arith, inl (refl, ground arith))))
    | inr gone ↦ rw (flush_pass_gone e rest flushed hit gone) tt
  ]
  | inr miss ↦ rw (flush_pass_miss e rest flushed miss) (
      Post-bind Unit (PassOk rest flushed) (PassOk (e ∷ rest) flushed) _ _
        (flush_pass-PassOk rest flushed hs)
        (λ p (u, len, le, s). (
          (h, u),
          omega arith,
          omega arith,
          elim s [
            | inl (yes', less) ↦ inl (yes', omega arith)
            | inr (no', same, still, all) ↦ inr (no', ap (◌∷◌ e) same, still, (ground arith, all))
          ],
        )))
]

-- At the end of the loop no element has the awaited number; either something was freed, or nothing
-- has changed.
abbrev FlushOk : List Element → ℕ → Pass → Type 0
FlushOk packets flushed q =
    All HasU32 q.packets
    × (length q.packets ≡ length packets)
    × (live q.packets ≤ live packets)
    × All (Passed q.flushed) q.packets
    × ((live q.packets < live packets) ⊎ ((q.packets ≡ packets) × (q.flushed ≡ flushed)))

flush_loop-FlushOk :
    (fuel : ℕ) (packets : List Element) (flushed : ℕ)
    → All HasU32 packets
    → live packets < fuel
    → Post Unit (FlushOk packets flushed) (flush_loop fuel packets flushed)
unfolding flush_loop
flush_loop-FlushOk zero packets flushed h lt = absurd (omega arith)
flush_loop-FlushOk (suc fuel) packets flushed h lt =
    Post-bind Unit (PassOk packets flushed) (FlushOk packets flushed) _ _
      (flush_pass-PassOk packets flushed h)
      (λ p (u, len, le, s). elim s [
        | inl (on, less) ↦ rw on (
            Post-bind Unit (FlushOk p.packets p.flushed) (FlushOk packets flushed) _ _
              (flush_loop-FlushOk fuel p.packets p.flushed u (omega arith))
              (λ q (u', len', le', all, _). (u', omega arith, omega arith, all, inl (omega arith))))
        | inr (off, same, still, all) ↦ rw off (u, len, le, rw (same, still) all, inr (same, still))
      ])

flush-FlushOk :
    (packets : List Element) (flushed : ℕ)
    → All HasU32 packets
    → Post Unit (FlushOk packets flushed) (flush packets flushed)
unfolding flush
flush-FlushOk packets flushed h =
    flush_loop-FlushOk (suc (length packets)) packets flushed h
      (omega (arith, live-le-length packets))

pub flush-Passed :
    (packets : List Element) (flushed : ℕ)
    → All HasU32 packets
    → Post Unit (λ q. All (Passed q.flushed) q.packets) (flush packets flushed)
flush-Passed packets flushed h =
    Post-weaken Unit (FlushOk packets flushed) _ _ (flush-FlushOk packets flushed h) (λ q ok. ok.3)

-- How many numbers are missing before the first element that has timed out.
waiting : Timeval → Interval → List Element → ℕ → ℕ
waiting now timeout [] flushed = 0
waiting now timeout (e ∷ rest) flushed =
    if timed_out now timeout e
    then (e.sequence + 4294967296 - next flushed) % 4294967296
    else waiting now timeout rest flushed

waiting-lt :
    (now : Timeval) (timeout : Interval) (packets : List Element) (flushed : ℕ)
    → waiting now timeout packets flushed < 4294967296
unfolding waiting
waiting-lt now timeout [] flushed = omega arith
waiting-lt now timeout (e ∷ rest) flushed = ground (arith, waiting-lt now timeout rest flushed)

-- Giving up a number brings the first timed-out element nearer.
waiting-next :
    (now : Timeval) (timeout : Interval) (packets : List Element) (flushed : ℕ)
    → any_timed_out now timeout packets ≡ true
    → All HasU32 packets
    → All (Passed flushed) packets
    → waiting now timeout packets (next flushed) < waiting now timeout packets flushed
unfolding waiting any_timed_out
waiting-next now timeout [] flushed any h p = cc
waiting-next now timeout (e ∷ rest) flushed any (h, hs) (p, ps) =
    elim (Bool-cases (timed_out now timeout e)) [
      | inl old ↦ rw (old, waiting) (omega arith)
      | inr young ↦
          rw (young, waiting)
            (waiting-next now timeout rest flushed (rw (young, any_timed_out) at any) hs ps)
    ]

abbrev measure : Timeval → Interval → List Element → ℕ → ℕ
measure now timeout packets flushed =
    live packets * 4294967296 + waiting now timeout packets flushed

-- After the flushing no element has timed out, and none has the awaited number.
abbrev pub Settled : Timeval → Interval → Pass → Type 0
Settled now timeout q =
    All HasU32 q.packets
    × (any_timed_out now timeout q.packets ≡ false)
    × All (Passed q.flushed) q.packets

module _ (now : Timeval) (timeout : Interval) where
  restart_flushing-Settled :
      (fuel : ℕ) (packets : List Element) (flushed : ℕ)
      → All HasU32 packets
      → measure now timeout packets flushed < fuel
      → Post Unit (Settled now timeout) (restart_flushing fuel now timeout packets flushed)
  unfolding restart_flushing
  restart_flushing-Settled zero packets flushed h lt = absurd (omega arith)
  restart_flushing-Settled (suc fuel) packets flushed h lt =
      Post-bind Unit (FlushOk packets flushed) (Settled now timeout) _ _
        (flush-FlushOk packets flushed h)
        (λ p (u, len, le, all, change). elim (Bool-cases (any_timed_out now timeout p.packets)) [
          | inl old ↦ rw old (
              Post-bind Unit (Settled now timeout) (Settled now timeout) _ _
                (restart_flushing-Settled fuel p.packets (next p.flushed) u (elim change [
                  | inl less ↦ omega (arith, waiting-lt now timeout p.packets (next p.flushed))
                  | inr (same, still) ↦ omega (
                    arith,
                    waiting-next now timeout p.packets p.flushed old u all,
                    ap₂ (waiting now timeout) same still,
                  )
                ]))
                (λ q ok. ok))
          | inr young ↦ rw young (u, young, all)
        ])

  -- From any reorder buffer of 32-bit numbers the restarts of the flushing come to an end, or touch
  -- freed memory. If they come to an end, no element has timed out then, and none has the awaited
  -- number.
  pub restart_flushing-ends :
      (packets : List Element) (flushed : ℕ)
      → All HasU32 packets
      → Post Unit
          (Settled now timeout)
          (restart_flushing (enough_fuel packets) now timeout packets flushed)
  restart_flushing-ends packets flushed h =
      restart_flushing-Settled (enough_fuel packets) packets flushed h
        (omega (arith, live-le-length packets, waiting-lt now timeout packets flushed))
