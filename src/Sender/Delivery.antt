-- ===== src/Sender/Delivery.antt =====
-- A packet that send_gre (src/tun2gre.c) builds, at the receiver of src/gre2tun.c.
use open_hybrid.Base.{
  ltb, true, ℕ, ◌+◌, ◌-◌, ◌/◌, ◌%◌, ◌≤◌, ◌≡◌, refl, ◌∙◌, true, false, List, [], ◌∷◌, ◌++◌, ok, drop,
  take, length, take-append, take-length, length-append, leb, arith, bytes_eq_refl,
}
use open_hybrid.Bytes.{ntohl, htons, htonl, load16, load32}
use open_hybrid.Runtime.{Timeval, Interval}
use open_hybrid.Reorder.{
  Element, Thread, ordered, next, enqueue, reordering_disabled, accept_packet, gre2tun_round,
  recv_packet,
}
use open_hybrid.Reorder.Alone.{alone_awaited}
use open_hybrid.Sender.{gre_header}

module _ (stamp now : Timeval) (limit : Interval) where
  -- The element that the payload becomes.
  abbrev element : ℕ → List ℕ → Element
  element sequence payload = record {
    sequence = sequence;
    timestamp = stamp;
    packet = payload;
    size = length payload;
    allocated = true;
  }

  enqueue-gre_header :
      (sequence n : ℕ) (payload : List ℕ) (t : Thread)
      → n ≡ 12 + length payload
      → t.packets ≡ []
      → length payload ≤ 1488
      → take (length payload) (drop 12 t.buffer) ≡ payload
      → length payload ≤ length (drop 12 t.buffer)
      → enqueue stamp sequence n t ≡ ok (record t { packets = element sequence payload ∷ [] })
  unfolding enqueue
  enqueue-gre_header sequence n payload t k none h e f =
      let size : (n + 65536 - 12) % 65536 ≡ length payload = omega arith in
      let fits : leb (length payload) (length (drop 12 t.buffer)) ≡ true = ground arith in
      simp (size, none, e, fits) refl

  -- The receiving thread has an empty reorder buffer, reordering is enabled, and the concentrator sends
  -- a GRE packet as send_gre builds it, with the awaited number and a payload of up to 1488 bytes. The
  -- round writes exactly this payload, whatever the buffer held before, and awaits the next number.
  pub gre2tun_round-gre_header :
      (haap_ip : List ℕ) (key proto : ℕ) (payload : List ℕ) (t : Thread)
      → t.packets ≡ []
      → length payload ≤ 1488
      → reordering_disabled limit ≡ false
      → let bytes = gre_header key proto (next t.sequence_flushed) true ++ payload in
        gre2tun_round haap_ip limit stamp now (recv_packet haap_ip bytes) t
        ≡ ok (record t {
          packets = [];
          sequence_flushed = next t.sequence_flushed;
          buffer = bytes ++ drop (length bytes) t.buffer;
          written = t.written ++ (ordered (next t.sequence_flushed) payload ∷ []);
        })
  unfolding gre2tun_round accept_packet gre_header load16 load32 htons htonl
  gre2tun_round-gre_header haap_ip key proto payload t none h on =
      let n = next t.sequence_flushed in
      let bytes = gre_header key proto n true ++ payload in
      let filled : Thread = record t { buffer = bytes ++ drop (length bytes) t.buffer } in
      let rest = drop (length bytes) t.buffer in
      let number : ntohl (n / 16777216 % 256) (n / 65536 % 256) (n / 256 % 256) (n % 256) ≡ n =
        omega arith in
      let put =
        enqueue-gre_header n (length bytes) payload filled (omega arith) none h
          (take-append payload rest) (omega (arith, length-append payload rest)) in
      let flushed =
        alone_awaited now limit (record filled { packets = element n payload ∷ [] })
          (element n payload) refl refl refl in
      let some : ltb 0 (length bytes) ≡ true = ground arith in
      rw (bytes_eq_refl haap_ip, on, some)
        (rw number (rw put (flushed ∙ rw (take-length payload) refl)))
