-- ===== src/Reorder/Trace.antt =====
-- Whole runs of gre2tun_main (src/gre2tun.c), as sequences of rounds from the start of the thread.
use open_hybrid.Base.{
  ℕ, ◌≡◌, List, ◌++◌, Outcome, ok, drop, length, true, bytes_eq, arith, Post, Post-weaken,
}
use mathlib.Core.Path.{subst}
use open_hybrid.Bytes.{load16, load32}
use open_hybrid.Runtime.{Timeval, Interval}
use open_hybrid.Reorder.{
  Thread, next, flush_buffer, recv_error, recv_timeout, recv_packet, gre2tun_round, start_thread,
}
use open_hybrid.Reorder.Order.{Ascending}
use open_hybrid.Reorder.Run.{IsOrdered, flush_buffer-IsOrdered}
use open_hybrid.Reorder.Round.{IsNew, gre2tun_round-IsOrdered}

-- A round of the thread in the session of a concentrator: an error of the socket, its timeout, or a
-- packet, which has a number that can be taken up if it comes from the concentrator.
pub data Step (limit : Interval) (haap_ip : List ℕ) (t : Thread) : Thread → Type 0 where
  error :
      {u : Thread} (stamp now : Timeval)
      → gre2tun_round haap_ip limit stamp now recv_error t ≡ ok u
      → Step limit haap_ip t u
  timeout :
      {u : Thread} (stamp now : Timeval)
      → gre2tun_round haap_ip limit stamp now recv_timeout t ≡ ok u
      → Step limit haap_ip t u
  arrival :
      {u : Thread} (stamp now : Timeval) (sender bytes : List ℕ) (flags sequence : ℕ)
      → load16 (bytes ++ drop (length bytes) t.buffer) ≡ ok flags
      → load32 (drop 8 (bytes ++ drop (length bytes) t.buffer)) ≡ ok sequence
      → (bytes_eq sender haap_ip ≡ true
          → IsNew stamp now limit sequence
              (length bytes)
              (record t { buffer = bytes ++ drop (length bytes) t.buffer }))
      → gre2tun_round haap_ip limit stamp now (recv_packet sender bytes) t ≡ ok u
      → Step limit haap_ip t u

pub data Trace (limit : Interval) (haap_ip : List ℕ) (t : Thread) : Thread → Type 0 where
  started : Trace limit haap_ip t t
  round :
      {u v : Thread} → Trace limit haap_ip t u → Step limit haap_ip u v → Trace limit haap_ip t v

came : {m : Outcome Thread} {u : Thread} → m ≡ ok u → Post ⊥ IsOrdered m → IsOrdered u
came e h = subst (Post ⊥ IsOrdered) e h

module _ (limit : Interval) (haap_ip : List ℕ) where
  Step-IsOrdered : {t u : Thread} → IsOrdered t → Step limit haap_ip t u → IsOrdered u
  unfolding gre2tun_round
  Step-IsOrdered {t} o (error stamp now e) = came e o
  Step-IsOrdered {t} o (timeout stamp now e) = came e (flush_buffer-IsOrdered now limit t o)
  Step-IsOrdered {t} o (arrival stamp now sender bytes flags sequence f q w e) =
      came e (gre2tun_round-IsOrdered stamp now limit haap_ip sender bytes t flags sequence f q w o)

  Trace-IsOrdered : {t u : Thread} → IsOrdered t → Trace limit haap_ip t u → IsOrdered u
  Trace-IsOrdered o started = o
  Trace-IsOrdered o (round r s) = Step-IsOrdered (Trace-IsOrdered o r) s

  start-IsOrdered : (buffer : List ℕ) → IsOrdered (start_thread buffer)
  unfolding start_thread
  start-IsOrdered buffer = record {
    small = omega arith;
    safe = tt;
    waits = tt;
    distinct = tt;
    ascending = omega arith;
    room = omega arith;
  }

  -- From the start of the thread, through any number of rounds in which nothing arrives, or a
  -- stranger's packet, or one from the concentrator of at least 12 bytes that has a new number for
  -- the reorder buffer, below the largest, and has not timed out by the end of its round unless its
  -- number can still be awaited, while the reorder buffer has fewer than 65535 elements: all that was
  -- written out of the reorder buffer has strictly ascending numbers below the awaited one, and a
  -- further round without a packet ends, touches no freed memory and leaves this so, whatever its
  -- time.
  pub Trace-Ascending :
      (buffer : List ℕ) (u : Thread) (now : Timeval)
      → Trace limit haap_ip (start_thread buffer) u
      → Ascending 0 (next u.sequence_flushed) u.written
        × Post ⊥ (λ v. Ascending 0 (next v.sequence_flushed) v.written) (flush_buffer now limit u)
  Trace-Ascending buffer u now r =
      let o = Trace-IsOrdered (start-IsOrdered buffer) r in
      (
        o.ascending,
        Post-weaken ⊥ IsOrdered _ _ (flush_buffer-IsOrdered now limit u o) (λ v p. p.ascending),
      )
