-- ===== src/Reorder/Alone.antt =====
-- A single packet in an otherwise empty reorder buffer of gre2tun_main: what becomes of it exactly.
use open_hybrid.Base.{
  ℕ, zero, suc, ◌+◌, ◌-◌, ◌%◌, ◌<◌, ◌≡◌, ◌≢◌, inl, inr, refl, sym, ap, ◌∙◌, true, false, List, [],
  ◌∷◌, ◌++◌, Outcome, ok, take, ◌==◌, ==_iff, arith, Bool-cases, append-nil,
}
use open_hybrid.Bytes.{IsU32}
use open_hybrid.Runtime.{Timeval, Interval}
use open_hybrid.Reorder.{
  Element, Pass, Thread, Write, ordered, next, release, timed_out, any_timed_out, flush,
  restart_flushing, enough_fuel, drop_late, drop_late_all, count_flushed, remove_flushed,
  flush_buffer,
}
use open_hybrid.Reorder.Steps.{
  restart_flushing_done, restart_flushing_again, flush_pass_nil, flush_pass_hit, flush_pass_miss,
}

abbrev pub settled : List Element → ℕ → List Write → Outcome Pass
settled packets flushed ws =
    ok (record { packets = packets; flushed = flushed; written = ws; progress = false })

miss_test : (a b : ℕ) → a ≢ b → (a == b) ≡ false
miss_test a b h = ground arith

hit_test : (a b : ℕ) → a ≡ b → (a == b) ≡ true
hit_test a b h = ground arith

flush_miss :
    (e : Element) (flushed : ℕ)
    → e.sequence ≢ next flushed
    → flush (e ∷ []) flushed ≡ settled (e ∷ []) flushed []
unfolding flush
flush_miss e flushed h =
    rw (flush_pass_miss e [] flushed (miss_test _ _ h)) (rw (flush_pass_nil flushed) refl)

flush_hit :
    (e : Element) (flushed : ℕ)
    → e.sequence ≡ next flushed
    → e.allocated ≡ true
    → flush (e ∷ []) flushed
      ≡ settled (release e ∷ []) e.sequence (ordered e.sequence (take e.size e.packet) ∷ [])
unfolding flush
flush_hit e flushed h here = rw (flush_pass_hit e [] flushed (hit_test _ _ h) here) (
    rw (flush_pass_nil (next flushed)) (
      rw
        (flush_pass_miss (release e) [] (next flushed)
          (miss_test e.sequence (next (next flushed)) (omega arith)))
        (rw (flush_pass_nil (next flushed)) (
          ap (λ n. settled (release e ∷ []) n (ordered e.sequence (take e.size e.packet) ∷ []))
            (sym h)))))

module _ (now : Timeval) (limit : Interval) where
  any_released : (e : Element) → any_timed_out now limit (release e ∷ []) ≡ false
  unfolding any_timed_out timed_out
  any_released e = refl

  any_one : (e : Element) → any_timed_out now limit (e ∷ []) ≡ timed_out now limit e
  unfolding any_timed_out
  any_one e = ground arith

  -- A packet that is alone in the buffer, not freed, and has timed out is written, and its number
  -- is then the last one flushed, also where it lies behind what was awaited: the restarts pass
  -- every number on the way, across the wrap-around, and as much fuel is enough.
  pub restart_flushing-timed_out :
      (fuel : ℕ) (e : Element) (flushed : ℕ)
      → IsU32 e.sequence
      → e.allocated ≡ true
      → timed_out now limit e ≡ true
      → (e.sequence + 4294967296 - next flushed) % 4294967296 < fuel
      → restart_flushing fuel now limit (e ∷ []) flushed
        ≡ settled (release e ∷ []) e.sequence (ordered e.sequence (take e.size e.packet) ∷ [])
  restart_flushing-timed_out zero e flushed u here old lt = absurd (omega arith)
  restart_flushing-timed_out (suc fuel) e flushed u here old lt =
      elim (Bool-cases (e.sequence == next flushed)) [
        | inl hit ↦
            restart_flushing_done fuel now limit (e ∷ []) flushed _
              (flush_hit e flushed ((==_iff _ _).0 hit) here) (any_released e)
        | inr miss ↦
            let other : e.sequence ≢ next flushed = (λ q. cc (miss, hit_test _ _ q)) in
            restart_flushing_again fuel now limit (e ∷ []) flushed _ (flush_miss e flushed other)
              (any_one e ∙ old)
            ∙ rw (restart_flushing-timed_out fuel e (next flushed) u here old (omega arith)) refl
      ]

  -- A packet that is alone in the buffer, not freed, and has timed out: the round writes it behind
  -- what was written, empties the buffer, and goes on from its number, whatever number was awaited
  -- before.
  pub alone_delivered :
      (t : Thread) (e : Element)
      → t.packets ≡ e ∷ []
      → IsU32 e.sequence
      → e.allocated ≡ true
      → timed_out now limit e ≡ true
      → flush_buffer now limit t
        ≡ ok (record t {
          packets = [];
          sequence_flushed = e.sequence;
          written = t.written ++ (ordered e.sequence (take e.size e.packet) ∷ []);
        })
  unfolding flush_buffer drop_late_all remove_flushed count_flushed
  alone_delivered t e one u here old = rw one (
      rw
        (restart_flushing-timed_out (enough_fuel (e ∷ [])) e t.sequence_flushed u here old
          (omega arith))
        refl)

  -- A packet that is alone in the buffer, not freed, and has the awaited number: the round writes it
  -- behind what was written, and empties the buffer.
  pub alone_awaited :
      (t : Thread) (e : Element)
      → t.packets ≡ e ∷ []
      → e.sequence ≡ next t.sequence_flushed
      → e.allocated ≡ true
      → flush_buffer now limit t
        ≡ ok (record t {
          packets = [];
          sequence_flushed = e.sequence;
          written = t.written ++ (ordered e.sequence (take e.size e.packet) ∷ []);
        })
  unfolding flush_buffer drop_late_all remove_flushed count_flushed
  alone_awaited t e one h here = rw one (
      rw
        (restart_flushing_done 8589934591 now limit (e ∷ []) t.sequence_flushed _
          (flush_hit e t.sequence_flushed h here) (any_released e))
        refl)

  -- A packet with another number than the awaited one, which has not timed out, stays alone.
  restart_flushing-waits :
      (fuel : ℕ) (e : Element) (flushed : ℕ)
      → e.sequence ≢ next flushed
      → timed_out now limit e ≡ false
      → restart_flushing (suc fuel) now limit (e ∷ []) flushed ≡ settled (e ∷ []) flushed []
  restart_flushing-waits fuel e flushed h young =
      restart_flushing_done fuel now limit (e ∷ []) flushed _ (flush_miss e flushed h)
        (any_one e ∙ young)

  dropped : (e : Element) → IsU32 e.sequence → (drop_late 4294967295 e).size ≡ 0
  unfolding drop_late
  dropped e u = ground arith

  -- At the start sequence_flushed is the largest number, so that everything but number 0 counts as
  -- late: a first packet that overtook number 0, and has not timed out, is thrown away at once, and
  -- nothing is written.
  pub early_dropped :
      (t : Thread) (e : Element)
      → t.packets ≡ e ∷ []
      → t.sequence_flushed ≡ 4294967295
      → IsU32 e.sequence
      → e.sequence ≢ 0
      → timed_out now limit e ≡ false
      → flush_buffer now limit t ≡ ok (record t { packets = [] })
  unfolding flush_buffer drop_late_all remove_flushed count_flushed
  early_dropped t e one first u h young = rw one (
      rw first (
        rw (restart_flushing-waits 8589934591 e 4294967295 h young)
          (ground (arith, dropped e u, append-nil t.written))))
