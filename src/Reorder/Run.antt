-- ===== src/Reorder/Run.antt =====
-- The rounds of gre2tun_main one after another: what the thread writes is in order, and it never
-- touches freed memory.
use open_hybrid.Base.{
  ℕ, ◌+◌, ◌-◌, ◌%◌, ◌≤◌, ◌<◌, ◌≡◌, inl, inr, refl, sym, ◌∙◌, true, List, [], ◌∷◌, ◌++◌, drop, take,
  length, length-drop, zero, suc, ap, All-drop, ◌==◌, ==_iff, ◌≢◌, arith, Bool-cases, All, Post,
  Post-bind,
}
use mathlib.Core.Path.{subst}
use open_hybrid.Bytes.{IsU32}
use open_hybrid.Runtime.{Timeval, Interval}
use open_hybrid.Reorder.{
  Element, Pass, Thread, next, timed_out, drop_late, drop_late_all, count_flushed, remove_flushed,
  flush_buffer,
}
use open_hybrid.Reorder.Ends.{Settled}
use open_hybrid.Reorder.Order.{
  Ascending, Ascending-append, numbers, Fresh, Distinct, IsSafe, IsPatient,
}
use open_hybrid.Reorder.Delivery.{Delivered, restart_flushing-delivers}

-- An element that is not flushed can still be awaited.
abbrev pub Waits : ℕ → Element → Type 0
Waits n e = 0 < e.size → n ≤ e.sequence

-- What holds between two rounds. The number of elements fits the counter of 16 bits.
pub record IsOrdered (t : Thread) : Type 0 where
  pub small : IsU32 t.sequence_flushed
  pub safe : All (IsSafe (next t.sequence_flushed)) t.packets
  pub waits : All (Waits (next t.sequence_flushed)) t.packets
  pub distinct : Distinct (numbers t.packets)
  pub ascending : Ascending 0 (next t.sequence_flushed) t.written
  pub room : length t.packets ≤ 65535

All-remove_flushed :
    (P : Element → Type 0) (packets : List Element) → All P packets → All P (remove_flushed packets)
unfolding remove_flushed
All-remove_flushed P packets h = All-drop P (count_flushed packets % 65536) packets h

Distinct-drop :
    (n : ℕ) (packets : List Element)
    → Distinct (numbers packets)
    → Distinct (numbers (drop n packets))
Distinct-drop zero packets d = d
Distinct-drop (suc n) [] d = tt
Distinct-drop (suc n) (e ∷ rest) (d, ds) = Distinct-drop n rest ds

Distinct-remove_flushed :
    (packets : List Element)
    → Distinct (numbers packets)
    → Distinct (numbers (remove_flushed packets))
unfolding remove_flushed
Distinct-remove_flushed packets d = Distinct-drop (count_flushed packets % 65536) packets d

length-remove_flushed : (packets : List Element) → length (remove_flushed packets) ≤ length packets
unfolding remove_flushed
length-remove_flushed packets = omega (arith, length-drop (count_flushed packets % 65536) packets)

length-numbers : (packets : List Element) → length (numbers packets) ≡ length packets
length-numbers [] = refl
length-numbers (e ∷ rest) = ap suc (length-numbers rest)

drop-length : (packets : List Element) → drop (length packets) packets ≡ []
drop-length [] = refl
drop-length (e ∷ rest) = drop-length rest

numbers-drop_late_all :
    (flushed : ℕ) (packets : List Element)
    → numbers (drop_late_all flushed packets) ≡ numbers packets
unfolding drop_late_all
numbers-drop_late_all flushed [] = refl
numbers-drop_late_all flushed (e ∷ rest) = ground (arith, numbers-drop_late_all flushed rest)

drop_late-IsSafe :
    (flushed n : ℕ) (e : Element)
    → n ≡ flushed + 1
    → IsSafe n e
    → IsSafe n (drop_late flushed e) × Waits n (drop_late flushed e)
unfolding drop_late
drop_late-IsSafe flushed n e h s = ground arith

drop_late_all-IsSafe :
    (flushed n : ℕ) (packets : List Element)
    → n ≡ flushed + 1
    → All (IsSafe n) packets
    → All (IsSafe n) (drop_late_all flushed packets) × All (Waits n) (drop_late_all flushed packets)
unfolding drop_late_all
drop_late_all-IsSafe flushed n [] h s = (tt, tt)
drop_late_all-IsSafe flushed n (e ∷ rest) h (s, ss) =
    let (safe, waits) = drop_late-IsSafe flushed n e h s in
    let (safe', waits') = drop_late_all-IsSafe flushed n rest h ss in
    ((safe, safe'), (waits, waits'))

-- With the largest number flushed, everything counts as late, and is removed as far as 16 bits count.
count_flushed-max :
    (packets : List Element) (n : ℕ)
    → All (IsSafe n) packets
    → count_flushed (drop_late_all 4294967295 packets) ≡ length (drop_late_all 4294967295 packets)
unfolding drop_late_all count_flushed
count_flushed-max [] n s = refl
count_flushed-max (e ∷ rest) n (s, ss) = ground (arith, s.below_max, count_flushed-max rest n ss)

length-drop_late_all :
    (flushed : ℕ) (packets : List Element) → length (drop_late_all flushed packets) ≡ length packets
unfolding drop_late_all
length-drop_late_all flushed [] = refl
length-drop_late_all flushed (e ∷ rest) = ap suc (length-drop_late_all flushed rest)

drop_late_all-max :
    (packets : List Element) (n : ℕ)
    → length packets ≤ 65535
    → All (IsSafe n) packets
    → remove_flushed (drop_late_all 4294967295 packets) ≡ []
unfolding remove_flushed
drop_late_all-max packets n few s =
    let late = drop_late_all 4294967295 packets in
    let counted : count_flushed late % 65536 ≡ length late =
      omega (arith, count_flushed-max packets n s, length-drop_late_all 4294967295 packets) in
    ap (λ k. drop k late) counted ∙ drop-length late

Fresh-append :
    (q : ℕ) (packets : List Element) (e : Element)
    → Fresh q (numbers packets)
    → e.sequence ≢ q
    → Fresh q (numbers (packets ++ (e ∷ [])))
Fresh-append q [] e f h = (h, tt)
Fresh-append q (x ∷ rest) e (f, fs) h = (f, Fresh-append q rest e fs h)

module _ (now : Timeval) (limit : Interval) where
  -- The cleaning at the end of a round.
  clean-IsOrdered :
      (t : Thread) (n : ℕ) (p : Pass)
      → Ascending 0 n t.written
      → Distinct (numbers t.packets)
      → length t.packets ≤ 65535
      → Delivered now limit t.packets n p
      → IsOrdered (record t {
        packets = remove_flushed (drop_late_all p.flushed p.packets);
        sequence_flushed = p.flushed;
        written = t.written ++ p.written;
      })
  clean-IsOrdered t n p a d few o = elim (Bool-cases (p.flushed == 4294967295)) [
    | inl max ↦
        let gone : remove_flushed (drop_late_all p.flushed p.packets) ≡ [] =
          rw ((==_iff _ _).0 max) (drop_late_all-max p.packets (next p.flushed) kept o.safe) in
        record {
          small = o.small;
          safe = rw gone tt;
          waits = rw gone tt;
          distinct = rw gone tt;
          ascending = written;
          room = rw gone (omega arith);
        }
    | inr room ↦
        let (safe, waits) =
          drop_late_all-IsSafe p.flushed (next p.flushed) p.packets (ground (arith, o.small))
            o.safe in
        record {
          small = o.small;
          safe = All-remove_flushed (IsSafe (next p.flushed)) _ safe;
          waits = All-remove_flushed (Waits (next p.flushed)) _ waits;
          distinct =
              Distinct-remove_flushed _
                (subst Distinct (sym (numbers-drop_late_all p.flushed p.packets ∙ o.same)) d);
          ascending = written;
          room = omega (
            arith,
            kept,
            length-remove_flushed (drop_late_all p.flushed p.packets),
            length-drop_late_all p.flushed p.packets,
          );
        }
  ]
    where
      kept : length p.packets ≤ 65535
      kept =
          omega (arith, few, length-numbers p.packets, length-numbers t.packets, ap length o.same)

      written : Ascending 0 (next p.flushed) (t.written ++ p.written)
      written = Ascending-append 0 n (next p.flushed) t.written p.written a o.ascending

  pub flush_buffer-settles :
      (t : Thread)
      → IsU32 t.sequence_flushed
      → All (IsSafe (next t.sequence_flushed)) t.packets
      → Distinct (numbers t.packets)
      → All (IsPatient now limit (next t.sequence_flushed)) t.packets
      → Ascending 0 (next t.sequence_flushed) t.written
      → length t.packets ≤ 65535
      → Post ⊥ IsOrdered (flush_buffer now limit t)
  unfolding flush_buffer
  flush_buffer-settles t u s d p a few =
      Post-bind ⊥
        (λ q. Delivered now limit t.packets (next t.sequence_flushed) q × Settled now limit q)
        IsOrdered _ _ (restart_flushing-delivers now limit t.packets t.sequence_flushed u s d p)
        (λ q (o, _). clean-IsOrdered t (next t.sequence_flushed) q a d few o)

  timed_out-sized : (e : Element) → timed_out now limit e ≡ true → 0 < e.size
  unfolding timed_out
  timed_out-sized e h = ground arith

  pub Waits-IsPatient :
      (n : ℕ) (packets : List Element) → All (Waits n) packets → All (IsPatient now limit n) packets
  Waits-IsPatient n [] w = tt
  Waits-IsPatient n (e ∷ rest) (w, ws) = (λ h. w (timed_out-sized e h), Waits-IsPatient n rest ws)

  -- The part of a round behind the reception, from a state where what was written is ascending and
  -- the buffer is in order and has at most 65535 elements: it ends in such a state again, and touches
  -- no freed memory.
  pub flush_buffer-IsOrdered :
      (t : Thread) → IsOrdered t → Post ⊥ IsOrdered (flush_buffer now limit t)
  flush_buffer-IsOrdered t o =
      flush_buffer-settles t o.small o.safe o.distinct (Waits-IsPatient _ t.packets o.waits)
        o.ascending o.room

  -- The element that a packet becomes.
  abbrev pub arrived : Timeval → ℕ → ℕ → Thread → Element
  arrived stamp sequence size t = record {
    sequence = sequence;
    timestamp = stamp;
    packet = take ((size + 65536 - 12) % 65536) (drop 12 t.buffer);
    size = (size + 65536 - 12) % 65536;
    allocated = true;
  }

  pub Distinct-append :
      (packets : List Element) (e : Element)
      → Distinct (numbers packets)
      → Fresh e.sequence (numbers packets)
      → Distinct (numbers (packets ++ (e ∷ [])))
  Distinct-append [] e d f = (tt, tt)
  Distinct-append (x ∷ rest) e (d, ds) (f, fs) =
      (Fresh-append x.sequence rest e d (λ h. f (sym h)), Distinct-append rest e ds fs)
