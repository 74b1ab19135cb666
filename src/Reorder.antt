-- ===== src/Reorder.antt =====
-- gre2tun_main of src/gre2tun.c: one round of its loop, from recvfrom to the cleaned reorder buffer.
-- The name of the thread is not modelled, nor the leak when the thread is cancelled.
pub mod Steps
pub mod Ends
pub mod Rounds
pub mod Order
pub mod Delivery
pub mod Run
pub mod Round
pub mod Alone
pub mod Trace
use open_hybrid.Base.{
  ℕ, zero, suc, ◌+◌, ◌-◌, ◌*◌, ◌%◌, ◌^◌, ◌≤◌, ◌<◌, Bool, true, false, not, ◌&&◌, ◌||◌, List, [],
  ◌∷◌, ◌++◌, Outcome, ok, fault, stuck, ◌>>=◌, take, drop, length, ltb, leb, ◌==◌, if◌then◌else◌,
  bytes_eq,
}
use open_hybrid.Base.Int.{ℤ, pos, eqb_ℤ}
use open_hybrid.Bytes.{u32, load16, load32}
use open_hybrid.Runtime.{Timeval, Interval}
use open_hybrid.Os.{timersub, timer_ge}
use open_hybrid.Grecp.{grecp_flagsandversion, grecp_flagsandversion_with_seq}

-- struct reorder_buffer_element. `size` is 0 once the packet is flushed; `allocated` tells whether
-- the memory behind `packet` is still there, which the code does not record.
pub record Element : Type 0 where
  pub sequence : ℕ
  pub timestamp : Timeval
  pub packet : List ℕ
  pub size : ℕ
  pub allocated : Bool

-- A packet written to the tun device: as it came, or out of the reorder buffer.
pub data Write : Type 0 where
  direct : List ℕ → Write
  ordered : ℕ → List ℕ → Write

-- The variables of the thread, with the packets written so far, the oldest first.
pub record Thread : Type 0 where
  pub packets : List Element
  pub sequence_flushed : ℕ
  pub buffer : List ℕ
  pub written : List Write

-- `sequence_flushed + 1` in uint32_t: the number that is waited for.
abbrev pub next : ℕ → ℕ
next flushed = u32 (flushed + 1)

-- Free the packet and mark it as flushed.
abbrev pub release : Element → Element
release e = record e { size = 0; allocated = false }

-- What a pass over the buffer leaves: the elements, sequence_flushed, what was written, and
-- flushed_something.
pub record Pass : Type 0 where
  pub packets : List Element
  pub flushed : ℕ
  pub written : List Write
  pub progress : Bool

-- The `for` loop that flushes: an element with the awaited number is written and freed. Writing and
-- freeing memory that was freed before is a fault.
unfoldable pub flush_pass : List Element → ℕ → Outcome Pass
flush_pass [] flushed =
    ok (record { packets = []; flushed = flushed; written = []; progress = false })
flush_pass (e ∷ rest) flushed = elim (e.sequence == next flushed) [
  | true ↦ elim e.allocated [
    | true ↦ flush_pass rest (next flushed) >>= λ p. ok (record p {
      packets = release e ∷ p.packets;
      written = ordered e.sequence (take e.size e.packet) ∷ p.written;
      progress = true;
    })
    | false ↦ fault
  ]
  | false ↦ flush_pass rest flushed >>= λ p. ok (record p { packets = e ∷ p.packets })
]

-- `while (flushed_something)`.
unfoldable pub flush_loop : ℕ → List Element → ℕ → Outcome Pass
flush_loop zero packets flushed = stuck
flush_loop (suc fuel) packets flushed = flush_pass packets flushed >>= λ p. elim p.progress [
  | true ↦ flush_loop fuel p.packets p.flushed >>= λ q.
      ok (record q { written = p.written ++ q.written })
  | false ↦ ok p
]

-- Each pass that goes on frees an element, so one pass more than there are elements is enough.
unfoldable pub flush : List Element → ℕ → Outcome Pass
unfolding flush_loop
flush packets flushed = flush_loop (suc (length packets)) packets flushed

-- Whether an element has waited for the whole timeout.
unfoldable pub timed_out : Timeval → Interval → Element → Bool
unfolding timersub timer_ge
timed_out now timeout e = ltb 0 e.size && timer_ge (timersub now e.timestamp) timeout

unfoldable pub any_timed_out : Timeval → Interval → List Element → Bool
any_timed_out now timeout [] = false
any_timed_out now timeout (e ∷ rest) = timed_out now timeout e || any_timed_out now timeout rest

-- From `restartflushing` to the end of the check for timed-out packets: each of these gives up one
-- missing number and starts again.
unfoldable pub restart_flushing : ℕ → Timeval → Interval → List Element → ℕ → Outcome Pass
restart_flushing zero now timeout packets flushed = stuck
restart_flushing (suc fuel) now timeout packets flushed = flush packets flushed >>= λ p.
    elim (any_timed_out now timeout p.packets) [
      | true ↦ restart_flushing fuel now timeout p.packets (next p.flushed) >>= λ q.
          ok (record q { written = p.written ++ q.written })
      | false ↦ ok p
    ]

-- Drop an element whose number has passed.
unfoldable pub drop_late : ℕ → Element → Element
drop_late flushed e = if ltb 0 e.size && leb e.sequence flushed then release e else e

unfoldable pub drop_late_all : ℕ → List Element → List Element
unfolding drop_late
drop_late_all flushed [] = []
drop_late_all flushed (e ∷ rest) = drop_late flushed e ∷ drop_late_all flushed rest

-- How many flushed elements stand at the front, before the first that is not.
unfoldable pub count_flushed : List Element → ℕ
count_flushed [] = 0
count_flushed (e ∷ rest) = elim (e.size == 0) [ true ↦ suc (count_flushed rest) | false ↦ 0 ]

-- reorder_buffer_freeable is a uint16_t: as many elements as it shows are removed from the front.
unfoldable pub remove_flushed : List Element → List Element
unfolding count_flushed
remove_flushed packets = drop (count_flushed packets % 65536) packets

-- Every number may have to be given up for each element.
abbrev pub enough_fuel : List Element → ℕ
enough_fuel packets = suc (length packets) * 2 ^ 32

-- The part of a round behind the reception.
unfoldable pub flush_buffer : Timeval → Interval → Thread → Outcome Thread
flush_buffer now timeout t =
    restart_flushing (enough_fuel t.packets) now timeout t.packets t.sequence_flushed >>= λ p.
    ok (record t {
      packets = remove_flushed (drop_late_all p.flushed p.packets);
      sequence_flushed = p.flushed;
      written = t.written ++ p.written;
    })

-- Append a packet to the reorder buffer. Its size is a uint16_t, and as many bytes are copied.
unfoldable pub enqueue : Timeval → ℕ → ℕ → Thread → Outcome Thread
enqueue stamp sequence size t =
    let payload_size = (size + 65536 - 12) % 65536 in
    let payload = drop 12 t.buffer in
    if leb payload_size (length payload)
    then ok (record t {
      packets =
          t.packets
          ++ (record {
            sequence = sequence;
            timestamp = stamp;
            packet = take payload_size payload;
            size = payload_size;
            allocated = true;
          }
              ∷ []);
    })
    else fault

-- Write to the tun device at once. A negative count is refused by the kernel.
unfoldable pub write_through : ℕ → ℕ → Thread → Thread
write_through offset size t = if ltb size offset then t else record t {
  written = t.written ++ (direct (take (size - offset) (drop offset t.buffer)) ∷ []);
}

abbrev pub reordering_disabled : Interval → Bool
reordering_disabled timeout = eqb_ℤ timeout.tv_sec (pos 0) && eqb_ℤ timeout.tv_usec (pos 0)

-- What recvfrom on the data socket comes to: an error, its timeout, or a packet with its sender.
-- After an empty packet the code goes by what errno was before: with EAGAIN it does what it does after
-- a timeout, and else what it does after an error, which is the case modelled as an empty packet.
pub data Datagram : Type 0 where
  recv_error : Datagram
  recv_timeout : Datagram
  recv_packet : List ℕ → List ℕ → Datagram

-- A packet from the HAAP that is not empty, by its GRE flags. With flags that are not known, the code
-- does `continue`, with no flushing.
unfoldable pub accept_packet : Timeval → Timeval → Interval → ℕ → Thread → Outcome Thread
accept_packet stamp now timeout size t = load16 t.buffer >>= λ flags.
    if flags == grecp_flagsandversion_with_seq
    then (load32 (drop 8 t.buffer) >>= λ sequence.
        (if reordering_disabled timeout
          then ok (write_through 12 size t)
          else enqueue stamp sequence size t)
        >>= flush_buffer now timeout)
    else if flags == grecp_flagsandversion
    then flush_buffer now timeout (write_through 8 size t)
    else ok t

-- One round of `while (true)`. `stamp` and `now` are the two readings of the clock.
unfoldable pub gre2tun_round :
    List ℕ → Interval → Timeval → Timeval → Datagram → Thread → Outcome Thread
gre2tun_round haap_ip limit stamp now recv_error t = ok t
gre2tun_round haap_ip limit stamp now recv_timeout t = flush_buffer now limit t
gre2tun_round haap_ip limit stamp now (recv_packet sender bytes) t =
    let t' = record t { buffer = bytes ++ drop (length bytes) t.buffer } in
    if ltb 0 (length bytes)
    then (if bytes_eq sender haap_ip
        then accept_packet stamp now limit (length bytes) t'
        else ok t')
    else ok t'

-- The variables at the start of the thread.
unfoldable pub start_thread : List ℕ → Thread
start_thread buffer = record {
  packets = [];
  sequence_flushed = 2 ^ 32 - 1;
  buffer = buffer;
  written = [];
}
