-- ===== src/Reorder/Round.antt =====
-- A whole round of gre2tun_main keeps the order, for a packet that is whole and new.
use open_hybrid.Base.{
  ℕ, ◌+◌, ◌-◌, ◌%◌, ◌≤◌, ◌<◌, ◌≡◌, inl, inr, refl, true, List, ◌++◌, ok, ◌>>=◌, length, length-drop,
  drop, ltb, length-append, [], ◌∷◌, leb, ◌==◌, arith, Bool-cases, All-append, Post, if◌then◌else◌,
  bytes_eq,
}
use open_hybrid.Bytes.{load16, load32}
use open_hybrid.Grecp.{grecp_flagsandversion, grecp_flagsandversion_with_seq}
use open_hybrid.Runtime.{Timeval, Interval}
use open_hybrid.Reorder.{
  Thread, next, timed_out, flush_buffer, enqueue, write_through, accept_packet, gre2tun_round,
  recv_packet, reordering_disabled,
}
use open_hybrid.Reorder.Order.{Ascending-append, numbers, Fresh, IsSafe, IsPatient}
use open_hybrid.Reorder.Run.{
  IsOrdered, Waits-IsPatient, flush_buffer-settles, flush_buffer-IsOrdered, arrived,
  Distinct-append,
}

write_through-IsOrdered :
    (offset size : ℕ) (t : Thread) → IsOrdered t → IsOrdered (write_through offset size t)
unfolding write_through
write_through-IsOrdered offset size t o = elim (Bool-cases (ltb size offset)) [
  | inl short ↦ rw short o
  | inr long ↦ rw long (record {
    small = o.small;
    safe = o.safe;
    waits = o.waits;
    distinct = o.distinct;
    ascending = Ascending-append 0 _ _ t.written _ o.ascending (omega arith);
    room = o.room;
  })
]

module _ (stamp now : Timeval) (limit : Interval) where
  -- A number that can be taken up: whole in the buffer, new there, not the largest, and not timed
  -- out on arrival if it is late; and the elements with it fit a counter of 16 bits.
  pub record IsNew (sequence size : ℕ) (t : Thread) : Type 0 where
    pub headed : 12 ≤ size
    pub short : size < 65536
    pub room : length t.packets < 65535
    pub whole : size ≤ length t.buffer
    pub fresh : Fresh sequence (numbers t.packets)
    pub below_max : sequence < 4294967295
    pub in_time :
        timed_out now limit (arrived now limit stamp sequence size t) ≡ true
        → next t.sequence_flushed ≤ sequence

  enqueue-IsOrdered :
      (sequence size : ℕ) (t : Thread)
      → IsNew sequence size t
      → IsOrdered t
      → Post ⊥ IsOrdered (enqueue stamp sequence size t >>= flush_buffer now limit)
  unfolding enqueue
  enqueue-IsOrdered sequence size t w o = rw fits (
      flush_buffer-settles now limit _ o.small
        (All-append (IsSafe (next t.sequence_flushed)) t.packets _ o.safe
          (record { freed = λ h. cc; sized = λ _. refl; below_max = w.below_max }, tt))
        (Distinct-append now limit t.packets (arrived now limit stamp sequence size t) o.distinct
          w.fresh)
        (All-append (IsPatient now limit (next t.sequence_flushed)) t.packets _
          (Waits-IsPatient now limit _ t.packets o.waits) (w.in_time, tt))
        o.ascending
        (omega
          (arith, w.room, length-append t.packets (arrived now limit stamp sequence size t ∷ []))))
    where
      fits : leb ((size + 65536 - 12) % 65536) (length (drop 12 t.buffer)) ≡ true
      fits = ground (arith, w.headed, w.short, w.whole, length-drop 12 t.buffer)

  sequenced-IsOrdered :
      (sequence size : ℕ) (t : Thread)
      → IsNew sequence size t
      → IsOrdered t
      → Post ⊥ IsOrdered (
          (if reordering_disabled limit
            then ok (write_through 12 size t)
            else enqueue stamp sequence size t)
          >>= flush_buffer now limit)
  sequenced-IsOrdered sequence size t w o = elim (Bool-cases (reordering_disabled limit)) [
    | inl off ↦ rw off (flush_buffer-IsOrdered now limit _ (write_through-IsOrdered 12 size t o))
    | inr on ↦ rw on (enqueue-IsOrdered sequence size t w o)
  ]

  accept_packet-IsOrdered :
      (flags sequence size : ℕ) (t : Thread)
      → load16 t.buffer ≡ ok flags
      → load32 (drop 8 t.buffer) ≡ ok sequence
      → IsNew sequence size t
      → IsOrdered t
      → Post ⊥ IsOrdered (accept_packet stamp now limit size t)
  unfolding accept_packet
  accept_packet-IsOrdered flags sequence size t e f w o =
      rw e (elim (Bool-cases (flags == grecp_flagsandversion_with_seq)) [
        | inl ordered ↦ rw (ordered, f) (sequenced-IsOrdered sequence size t w o)
        | inr unordered ↦ elim (Bool-cases (flags == grecp_flagsandversion)) [
          | inl plain ↦
              rw (unordered, plain)
                (flush_buffer-IsOrdered now limit _ (write_through-IsOrdered 8 size t o))
          | inr other ↦ rw (unordered, other) o
        ]
      ])

  -- A packet arrives, and with it the buffer has flags and a number to be read. If the packet comes
  -- from the concentrator, it has at least 12 bytes and fits 16 bits, the reorder buffer has fewer than
  -- 65535 elements, and the number is not in it, is not the largest, and has not timed out by the end
  -- of the round unless it can still be awaited. From a state where what was written is ascending and
  -- the buffer is in order and has at most 65535 elements, the round ends in such a state again, and
  -- accesses no memory that C leaves undefined.
  pub gre2tun_round-IsOrdered :
      (haap_ip sender bytes : List ℕ) (t : Thread) (flags sequence : ℕ)
      → let filled = record t { buffer = bytes ++ drop (length bytes) t.buffer } in
        load16 filled.buffer ≡ ok flags
        → load32 (drop 8 filled.buffer) ≡ ok sequence
        → (bytes_eq sender haap_ip ≡ true → IsNew sequence (length bytes) filled)
        → IsOrdered t
        → Post ⊥ IsOrdered (gre2tun_round haap_ip limit stamp now (recv_packet sender bytes) t)
  unfolding gre2tun_round
  gre2tun_round-IsOrdered haap_ip sender bytes t flags sequence e f w o =
      elim (Bool-cases (ltb 0 (length bytes))) [
        | inl some ↦ elim (Bool-cases (bytes_eq sender haap_ip)) [
          | inl haap ↦
              rw (some, haap)
                (accept_packet-IsOrdered flags sequence (length bytes) _ e f (w haap) filled)
          | inr other ↦ rw (some, other) filled
        ]
        | inr empty ↦ rw empty filled
      ]
    where
      filled : IsOrdered (record t { buffer = bytes ++ drop (length bytes) t.buffer })
      filled = record {
        small = o.small;
        safe = o.safe;
        waits = o.waits;
        distinct = o.distinct;
        ascending = o.ascending;
        room = o.room;
      }
