-- ===== src/Sender/Runs.antt =====
-- Runs of the sending thread (src/tun2gre.c), and what a receiving thread (src/gre2tun.c) makes of the
-- messages if they arrive in their order.
use open_hybrid.Base.{
  ℕ, ◌+◌, ◌≤◌, ◌≡◌, refl, sym, ap, ◌∙◌, true, false, List, [], ◌∷◌, ◌++◌, append-nil, append_assoc,
  All, Outcome, ok, ◌>>=◌, drop, length, arith,
}
use open_hybrid.Bytes.{u32}
use open_hybrid.Runtime.{Timeval, Interval, Call, State, sendmsg}
use open_hybrid.Os.{called}
use open_hybrid.Reorder.{Write, ordered, next, reordering_disabled, gre2tun_round, recv_packet}
use open_hybrid.Sender.{Thread, gre_header, tun2gre_round}
use open_hybrid.Sender.Delivery.{gre2tun_round-gre_header}
use open_hybrid.Sender.Sent.{IsSendable, protocol, filled, length-filled, tun2gre_round_sent}

-- The rounds of the sending thread on successive reads of the tun device.
unfoldable pub send_all : List (List ℕ) → Thread → State → Outcome (Thread × State)
send_all [] t s = ok (t, s)
send_all (packet ∷ packets) t s = tun2gre_round packet t s >>= λ (t', s'). send_all packets t' s'

-- The rounds of the receiving thread on successive messages of the concentrator, with the two readings
-- of the clock in each.
unfoldable pub receive_all :
    List ℕ
    → Interval
    → (ℕ → Timeval × Timeval)
    → List (List ℕ)
    → open_hybrid.Reorder.Thread
    → Outcome open_hybrid.Reorder.Thread
receive_all haap_ip limit clock [] t = ok t
receive_all haap_ip limit clock (bytes ∷ messages) t =
    gre2tun_round haap_ip limit (clock (length messages)).0 (clock (length messages)).1
      (recv_packet haap_ip bytes) t
    >>= receive_all haap_ip limit clock messages

-- The messages for packets, numbered from n on.
abbrev pub messages_from : ℕ → ℕ → List (List ℕ) → List (List ℕ)
messages_from key n [] = []
messages_from key n (packet ∷ packets) =
    (gre_header key (protocol packet) n true ++ packet) ∷ messages_from key (u32 (n + 1)) packets

-- The packets under the numbers from n on.
abbrev pub ordered_from : ℕ → List (List ℕ) → List Write
ordered_from n [] = []
ordered_from n (packet ∷ packets) = ordered n packet ∷ ordered_from (u32 (n + 1)) packets

-- Messages over the LTE tunnel, behind other calls.
abbrev pub sent_over_lte : State → List (List ℕ) → List Call → List Call
sent_over_lte s [] calls = calls
sent_over_lte s (bytes ∷ messages) calls =
    sent_over_lte s messages (sendmsg s.runtime.lte.interface_ip s.runtime.haap.ip bytes ∷ calls)

-- The sending thread.
send_all-sent :
    (packets : List (List ℕ)) (t : Thread) (s : State)
    → s.runtime.lte.tunnel_established ≡ true
    → 44 ≤ length t.buffer
    → All IsSendable packets
    → (t' : Thread) × (send_all packets t s
        ≡ ok (
          t',
          record s {
            trace =
                sent_over_lte s
                  (messages_from s.runtime.haap.bonding_key t.sequence packets)
                  s.trace;
          },
        ))
unfolding send_all
send_all-sent [] t s up long h = (t, refl)
send_all-sent (packet ∷ packets) t s up long (h, hs) =
    let t1 = record (filled packet t) { sequence = u32 (t.sequence + 1) } in
    let bytes = gre_header s.runtime.haap.bonding_key (protocol packet) t.sequence true ++ packet in
    let s1 = called (sendmsg s.runtime.lte.interface_ip s.runtime.haap.ip bytes) s in
    let (t', e) = send_all-sent packets t1 s1 up (omega (arith, long, length-filled packet t)) hs in
    (
      t',
      ap (λ m. m >>= λ (t2, s2). send_all packets t2 s2) (tun2gre_round_sent packet t s up long h)
          ∙ e,
    )

IsSendable-short : (packet : List ℕ) → IsSendable packet → length packet ≤ 1488
IsSendable-short [] h = absurd h
IsSendable-short (byte ∷ packet) h = h.1

module _ (haap_ip : List ℕ) (limit : Interval) (clock : ℕ → Timeval × Timeval) where
  -- The receiving thread.
  receive_all-delivered :
      (key : ℕ) (packets : List (List ℕ)) (t : open_hybrid.Reorder.Thread)
      → t.packets ≡ []
      → reordering_disabled limit ≡ false
      → All IsSendable packets
      → (t' : open_hybrid.Reorder.Thread) × (receive_all haap_ip limit clock
            (messages_from key (next t.sequence_flushed) packets)
            t
          ≡ ok t')
        × (t'.written ≡ t.written ++ ordered_from (next t.sequence_flushed) packets)
        × (t'.packets ≡ [])
  unfolding receive_all
  receive_all-delivered key [] t none on h = (t, refl, sym (append-nil t.written), none)
  receive_all-delivered key (packet ∷ packets) t none on (h, hs) =
      let n = next t.sequence_flushed in
      let bytes = gre_header key (protocol packet) n true ++ packet in
      let now = clock (length (messages_from key (next n) packets)) in
      let t1 = record t {
        packets = [];
        sequence_flushed = n;
        buffer = bytes ++ drop (length bytes) t.buffer;
        written = t.written ++ (ordered n packet ∷ []);
      } in
      let first =
        gre2tun_round-gre_header (now.0) (now.1) limit haap_ip key (protocol packet) packet t none
          (IsSendable-short packet h) on in
      let (t', e, written, empty) = receive_all-delivered key packets t1 refl on hs in
      (
        t',
        ap (λ m. m >>= receive_all haap_ip limit clock (messages_from key (next n) packets)) first
            ∙ e,
        written ∙ append_assoc t.written (ordered n packet ∷ []) (ordered_from (next n) packets),
        empty,
      )

  -- The sending thread reads packets, each an IP packet of at most 1488 bytes, into a buffer of at
  -- least 44 bytes, and the LTE tunnel is up. Its rounds send messages over that tunnel and make no
  -- other call. If a receiving thread with an empty reorder buffer, which reorders and awaits the
  -- number that the sender starts with, gets these messages in their order from its concentrator, at
  -- whatever times, its rounds write exactly the packets, in their order and each under its number,
  -- and leave the reorder buffer empty.
  pub send_all-receive_all :
      (packets : List (List ℕ)) (t : Thread) (s : State) (u : open_hybrid.Reorder.Thread)
      → All IsSendable packets
      → s.runtime.lte.tunnel_established ≡ true
      → 44 ≤ length t.buffer
      → u.packets ≡ []
      → reordering_disabled limit ≡ false
      → t.sequence ≡ next u.sequence_flushed
      → (messages : List (List ℕ)) × ((t' : Thread) × (send_all packets t s
            ≡ ok (t', record s { trace = sent_over_lte s messages s.trace })))
        × ((u' : open_hybrid.Reorder.Thread) × (receive_all haap_ip limit clock messages u ≡ ok u')
            × (u'.written ≡ u.written ++ ordered_from t.sequence packets)
            × (u'.packets ≡ []))
  send_all-receive_all packets t s u h up long none on same =
      let key = s.runtime.haap.bonding_key in
      (
        messages_from key t.sequence packets,
        send_all-sent packets t s up long h,
        rw same (receive_all-delivered key packets u none on h),
      )
