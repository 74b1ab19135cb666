-- ===== src/Reorder/Rounds.antt =====
-- A round of gre2tun_main ends on every packet.
use open_hybrid.Base.{
  ℕ, ◌+◌, ◌-◌, ◌%◌, List, [], ◌∷◌, ◌++◌, ok, ◌>>=◌, length, drop, ltb, leb, ◌==◌, if◌then◌else◌,
  arith, Bool-cases, All, Post, Post-bind, inl, inr, All-append, All-drop, bytes_eq,
}
use open_hybrid.Bytes.{IsByte, IsU32, load16, load32}
use open_hybrid.Grecp.{grecp_flagsandversion, grecp_flagsandversion_with_seq}
use open_hybrid.Runtime.{Timeval, Interval}
use open_hybrid.Reorder.{
  Element, Thread, recv_packet, drop_late_all, count_flushed, remove_flushed, flush_buffer, enqueue,
  write_through, accept_packet, gre2tun_round, reordering_disabled,
}
use open_hybrid.Reorder.Ends.{HasU32, Settled, restart_flushing-ends}

-- The numbers in the buffer are uint32_t, and the packet buffer holds bytes.
pub record IsTyped (t : Thread) : Type 0 where
  pub numbers : All HasU32 t.packets
  pub bytes : All IsByte t.buffer

drop_late_all-HasU32 :
    (flushed : ℕ) (packets : List Element)
    → All HasU32 packets
    → All HasU32 (drop_late_all flushed packets)
unfolding drop_late_all
drop_late_all-HasU32 flushed [] h = tt
drop_late_all-HasU32 flushed (e ∷ rest) (h, hs) =
    (ground arith, drop_late_all-HasU32 flushed rest hs)

remove_flushed-HasU32 :
    (packets : List Element) → All HasU32 packets → All HasU32 (remove_flushed packets)
unfolding remove_flushed
remove_flushed-HasU32 packets h = All-drop HasU32 (count_flushed packets % 65536) packets h

flush_buffer-IsTyped :
    (now : Timeval) (limit : Interval) (t : Thread)
    → IsTyped t
    → Post Unit IsTyped (flush_buffer now limit t)
unfolding flush_buffer
flush_buffer-IsTyped now limit t h =
    Post-bind Unit (Settled now limit) IsTyped _ _
      (restart_flushing-ends now limit t.packets t.sequence_flushed h.numbers)
      (λ p (u, _, _). record {
        numbers = remove_flushed-HasU32 _ (drop_late_all-HasU32 p.flushed p.packets u);
        bytes = h.bytes;
      })

load16-total : (b : List ℕ) → Post Unit (λ x. Unit) (load16 b)
unfolding load16
load16-total [] = tt
load16-total (a ∷ []) = tt
load16-total (a ∷ b ∷ r) = tt

load32-IsU32 : (b : List ℕ) → All IsByte b → Post Unit IsU32 (load32 b)
unfolding load32
load32-IsU32 [] h = tt
load32-IsU32 (a ∷ []) h = tt
load32-IsU32 (a ∷ b ∷ []) h = tt
load32-IsU32 (a ∷ b ∷ c ∷ []) h = tt
load32-IsU32 (a ∷ b ∷ c ∷ d ∷ r) h = omega arith

enqueue-IsTyped :
    (stamp : Timeval) (sequence size : ℕ) (t : Thread)
    → IsU32 sequence
    → IsTyped t
    → Post Unit IsTyped (enqueue stamp sequence size t)
unfolding enqueue
enqueue-IsTyped stamp sequence size t u h =
    elim (Bool-cases (leb ((size + 65536 - 12) % 65536) (length (drop 12 t.buffer)))) [
      | inl fits ↦
          rw fits
            (record { numbers = All-append HasU32 t.packets _ h.numbers (u, tt); bytes = h.bytes })
      | inr short ↦ rw short tt
    ]

write_through-IsTyped :
    (offset size : ℕ) (t : Thread) → IsTyped t → IsTyped (write_through offset size t)
unfolding write_through
write_through-IsTyped offset size t h = elim (Bool-cases (ltb size offset)) [
  | inl short ↦ rw short h
  | inr long ↦ rw long (record { numbers = h.numbers; bytes = h.bytes })
]

-- The two ways of a packet with a sequence number.
sequenced-IsTyped :
    (stamp now : Timeval) (limit : Interval) (size sequence : ℕ) (t : Thread)
    → IsU32 sequence
    → IsTyped t
    → Post Unit IsTyped (
        (if reordering_disabled limit
          then ok (write_through 12 size t)
          else enqueue stamp sequence size t)
        >>= flush_buffer now limit)
sequenced-IsTyped stamp now limit size sequence t u h =
    elim (Bool-cases (reordering_disabled limit)) [
      | inl off ↦ rw off (flush_buffer-IsTyped now limit _ (write_through-IsTyped 12 size t h))
      | inr on ↦ rw on (
          Post-bind Unit IsTyped IsTyped (enqueue stamp sequence size t) (flush_buffer now limit)
            (enqueue-IsTyped stamp sequence size t u h) (flush_buffer-IsTyped now limit))
    ]

accept_packet-IsTyped :
    (stamp now : Timeval) (limit : Interval) (size : ℕ) (t : Thread)
    → IsTyped t
    → Post Unit IsTyped (accept_packet stamp now limit size t)
unfolding accept_packet
accept_packet-IsTyped stamp now limit size t h =
    Post-bind Unit (λ x. Unit {0}) IsTyped _ _ (load16-total t.buffer)
      (λ flags _. elim (Bool-cases (flags == grecp_flagsandversion_with_seq)) [
        | inl ordered ↦ rw ordered (
            Post-bind Unit IsU32 IsTyped _ _ (load32-IsU32 _ (All-drop IsByte 8 t.buffer h.bytes))
              (λ sequence u. sequenced-IsTyped stamp now limit size sequence t u h))
        | inr unordered ↦ elim (Bool-cases (flags == grecp_flagsandversion)) [
          | inl plain ↦
              rw (unordered, plain)
                (flush_buffer-IsTyped now limit _ (write_through-IsTyped 8 size t h))
          | inr other ↦ rw (unordered, other) h
        ]
      ])

-- Whatever bytes arrive, from whatever sender, and whatever the reorder buffer holds, a round of
-- the receiving thread ends: with well-typed variables again, or with an access to memory that C
-- leaves undefined.
pub gre2tun_round-IsTyped :
    (haap_ip : List ℕ) (limit : Interval) (stamp now : Timeval) (sender bytes : List ℕ) (t : Thread)
    → All IsByte bytes
    → IsTyped t
    → Post Unit IsTyped (gre2tun_round haap_ip limit stamp now (recv_packet sender bytes) t)
unfolding gre2tun_round
gre2tun_round-IsTyped haap_ip limit stamp now sender bytes t b h =
    elim (Bool-cases (ltb 0 (length bytes))) [
      | inl some ↦ elim (Bool-cases (bytes_eq sender haap_ip)) [
        | inl haap ↦ rw (some, haap) (accept_packet-IsTyped stamp now limit (length bytes) _ filled)
        | inr other ↦ rw (some, other) filled
      ]
      | inr empty ↦ rw empty filled
    ]
  where
    filled : IsTyped (record t { buffer = bytes ++ drop (length bytes) t.buffer })
    filled = record {
      numbers = h.numbers;
      bytes = All-append IsByte bytes _ b (All-drop IsByte (length bytes) t.buffer h.bytes);
    }
