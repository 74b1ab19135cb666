-- ===== src/Tests/Data.antt =====
-- The theorems on the receiving thread of the data plane, at concrete reorder buffers.
use open_hybrid.Base.{
  ℕ, zero, suc, ◌<◌, ◌≡◌, refl, true, false, List, [], ◌∷◌, ◌++◌, ok, Post, All, replicate, arith,
}
use open_hybrid.Base.Int.{◌+ℤ◌, ◌-ℤ◌}
use open_hybrid.Bytes.{IsByte, load16, load32}
use open_hybrid.Runtime.{Timeval}
use open_hybrid.Os.{timersub, timer_ge}
use open_hybrid.Reorder.{
  Element, Thread, ordered, next, release, timed_out, restart_flushing, enough_fuel, flush_buffer,
  recv_packet, gre2tun_round,
}
use open_hybrid.Reorder.Ends.{Settled, restart_flushing-ends}
use open_hybrid.Reorder.Rounds.{IsTyped, gre2tun_round-IsTyped}
use open_hybrid.Reorder.Order.{Distinct, numbers, IsSafe}
use open_hybrid.Reorder.Delivery.{Delivered, restart_flushing-delivers}
use open_hybrid.Reorder.Run.{IsOrdered, flush_buffer-IsOrdered}
use open_hybrid.Reorder.Round.{gre2tun_round-IsOrdered}
use open_hybrid.Reorder.Alone.{settled, restart_flushing-timed_out, alone_delivered, early_dropped}
use open_hybrid.Tests.{tenth}

abbrev early : Timeval
early = record { tv_sec = 5; tv_usec = 0 }

abbrev late : Timeval
late = record { tv_sec = 6; tv_usec = 0 }

-- A packet of two bytes that came at the early time.
abbrev waiting : ℕ → Element
waiting sequence = record {
  sequence = sequence;
  timestamp = early;
  packet = 1 ∷ 2 ∷ [];
  size = 2;
  allocated = true;
}

-- Number 7 is awaited, and 9 and 8 have come.
abbrev two_waiting : List Element
two_waiting = waiting 9 ∷ waiting 8 ∷ []

abbrev thread : Thread
thread = record {
  packets = two_waiting;
  sequence_flushed = 6;
  buffer = replicate 40 0;
  written = [];
}

-- A GRE packet with number 7 and a payload of two bytes.
abbrev datagram : List ℕ
datagram = (48 ∷ 0 ∷ 8 ∷ 0 ∷ 0 ∷ 0 ∷ 0 ∷ 0 ∷ []) ++ ((0 ∷ 0 ∷ 0 ∷ 7 ∷ []) ++ (69 ∷ 0 ∷ []))

restart_flushing-ends_example :
    Post Unit
      (Settled late tenth)
      (restart_flushing (enough_fuel two_waiting) late tenth two_waiting 6)
restart_flushing-ends_example =
    restart_flushing-ends late tenth two_waiting 6 (omega arith, (omega arith, tt))

waiting-IsSafe : (n q : ℕ) → q < 4294967295 → IsSafe n (waiting q)
waiting-IsSafe n q h = record { freed = λ e. cc; sized = λ _. refl; below_max = h }

two_waiting-IsSafe : All (IsSafe 7) two_waiting
two_waiting-IsSafe = (waiting-IsSafe 7 9 (omega arith), (waiting-IsSafe 7 8 (omega arith), tt))

two_waiting-Distinct : Distinct (numbers two_waiting)
two_waiting-Distinct = ((λ e. omega arith, tt), (tt, tt))

restart_flushing-delivers_example :
    Post ⊥
      (λ q. Delivered late tenth two_waiting (next 6) q × Settled late tenth q)
      (restart_flushing (enough_fuel two_waiting) late tenth two_waiting 6)
restart_flushing-delivers_example =
    restart_flushing-delivers late tenth two_waiting 6 (omega arith) two_waiting-IsSafe
      two_waiting-Distinct (λ _. omega arith, (λ _. omega arith, tt))

thread-IsOrdered : IsOrdered thread
thread-IsOrdered = record {
  small = omega arith;
  safe = two_waiting-IsSafe;
  waits = (λ _. omega arith, (λ _. omega arith, tt));
  distinct = two_waiting-Distinct;
  ascending = omega arith;
  room = omega arith;
}

flush_buffer-IsOrdered_example : Post ⊥ IsOrdered (flush_buffer late tenth thread)
flush_buffer-IsOrdered_example = flush_buffer-IsOrdered late tenth thread thread-IsOrdered

datagram-IsByte : All IsByte datagram
datagram-IsByte = (
  omega arith,
  (
    omega arith,
    (
      omega arith,
      (
        omega arith,
        (
          omega arith,
          (
            omega arith,
            (
              omega arith,
              (
                omega arith,
                (
                  omega arith,
                  (omega arith, (omega arith, (omega arith, (omega arith, (omega arith, tt))))),
                ),
              ),
            ),
          ),
        ),
      ),
    ),
  ),
)

thread-IsTyped : IsTyped thread
thread-IsTyped = record { numbers = (omega arith, (omega arith, tt)); bytes = zeros 40 }
  where
    zeros : (n : ℕ) → All IsByte (replicate n 0)
    zeros zero = tt
    zeros (suc n) = (omega arith, zeros n)

gre2tun_round-IsTyped_example :
    Post Unit IsTyped
      (gre2tun_round (1 ∷ []) tenth early late (recv_packet (1 ∷ []) datagram) thread)
gre2tun_round-IsTyped_example =
    gre2tun_round-IsTyped (1 ∷ []) tenth early late (1 ∷ []) datagram thread datagram-IsByte
      thread-IsTyped

gre2tun_round-IsOrdered_example :
    Post ⊥ IsOrdered
      (gre2tun_round (1 ∷ []) tenth early late (recv_packet (1 ∷ []) datagram) thread)
unfolding load16 load32
gre2tun_round-IsOrdered_example =
    gre2tun_round-IsOrdered early late tenth (1 ∷ []) (1 ∷ []) datagram thread 12288 7 refl refl
      (λ haap. record {
        headed = omega arith;
        short = omega arith;
        room = omega arith;
        whole = omega arith;
        fresh = (λ e. omega arith, (λ e. omega arith, tt));
        below_max = omega arith;
        in_time = λ _. omega arith;
      })
      thread-IsOrdered

waiting-late : timed_out late tenth (waiting 9) ≡ true
unfolding timed_out timersub timer_ge ◌-ℤ◌ ◌+ℤ◌
waiting-late = refl

waiting-early : timed_out early tenth (waiting 9) ≡ false
unfolding timed_out timersub timer_ge ◌-ℤ◌ ◌+ℤ◌
waiting-early = refl

restart_flushing-timed_out_example :
    restart_flushing 8 late tenth (waiting 9 ∷ []) 6
    ≡ settled (release (waiting 9) ∷ []) 9 (ordered 9 (1 ∷ 2 ∷ []) ∷ [])
restart_flushing-timed_out_example =
    restart_flushing-timed_out late tenth 8 (waiting 9) 6 (omega arith) refl waiting-late
      (omega arith)

abbrev one_waiting : ℕ → Thread
one_waiting flushed = record {
  packets = waiting 9 ∷ [];
  sequence_flushed = flushed;
  buffer = [];
  written = [];
}

alone_delivered_example :
    flush_buffer late tenth (one_waiting 6)
    ≡ ok (record (one_waiting 6) {
      packets = [];
      sequence_flushed = 9;
      written = [] ++ (ordered 9 (1 ∷ 2 ∷ []) ∷ []);
    })
alone_delivered_example =
    alone_delivered late tenth (one_waiting 6) (waiting 9) refl (omega arith) refl waiting-late

early_dropped_example :
    flush_buffer early tenth (one_waiting 4294967295)
    ≡ ok (record (one_waiting 4294967295) { packets = [] })
early_dropped_example =
    early_dropped early tenth (one_waiting 4294967295) (waiting 9) refl refl (omega arith)
      (omega arith) waiting-early
