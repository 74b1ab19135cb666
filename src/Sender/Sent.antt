-- ===== src/Sender/Sent.antt =====
-- A round of the sending thread (src/tun2gre.c) on an IP packet, with the LTE tunnel up.
use open_hybrid.Base.{
  ℕ, ◌+◌, ◌/◌, ◌≤◌, ◌≡◌, ◌⊎◌, inl, inr, refl, Bool, true, false, List, [], ◌∷◌, ◌++◌, ok, ◌>>=◌,
  drop, length, length-append, length-drop, leb, ◌==◌, if◌then◌else◌, Bool-cases, arith,
}
use open_hybrid.Bytes.{u32, htons, htonl}
use open_hybrid.Runtime.{State, sendmsg}
use open_hybrid.Os.{called}
use open_hybrid.Bytes.Total.{load16-long}
use open_hybrid.Grecp.Attribute.{load8}
use open_hybrid.Grecp.Guard.{load8-long}
use open_hybrid.Sender.{
  Thread, gre_header, send_gre, max_pkt_size, ethertype_ip, ethertype_ipv6, ipproto_udp, has_ports,
  check_dhcp, classify, forward, tun2gre_round,
}

-- An IP packet by its version, not empty, and with room for the GRE header in a buffer of 1500 bytes.
abbrev pub IsSendable : List ℕ → Type 0
IsSendable [] = ⊥
IsSendable (byte ∷ packet) = ((byte / 16 ≡ 4) ⊎ (byte / 16 ≡ 6)) × (length (byte ∷ packet) ≤ 1488)

-- The protocol that stands in the GRE header.
abbrev pub protocol : List ℕ → ℕ
protocol [] = 0
protocol (byte ∷ packet) = if byte / 16 == 4 then ethertype_ip else ethertype_ipv6

has_ports-long :
    (offset sport dport : ℕ) (buffer : List ℕ)
    → offset + 4 ≤ length buffer
    → (b : Bool) × (has_ports offset sport dport buffer ≡ ok b)
has_ports-long offset sport dport buffer h =
    let (source, e) = load16-long (drop offset buffer) (omega (arith, length-drop offset buffer)) in
    let (target, d) =
      load16-long (drop (offset + 2) buffer) (omega (arith, length-drop (offset + 2) buffer)) in
    elim (Bool-cases (source == sport)) [
      | inl same ↦ (target == dport, rw (e, same) (rw d refl))
      | inr other ↦ (false, rw (e, other) refl)
    ]

udp-long :
    (offset sport dport n : ℕ) (buffer : List ℕ)
    → n + 1 ≤ length buffer
    → offset + 4 ≤ length buffer
    → (b : Bool) × ((load8 (drop n buffer) >>= λ p.
          if p == ipproto_udp then has_ports offset sport dport buffer else ok false)
        ≡ ok b)
udp-long offset sport dport n buffer near far =
    let (p, e) = load8-long (drop n buffer) (omega (arith, length-drop n buffer)) in
    let (b, d) = has_ports-long offset sport dport buffer far in
    elim (Bool-cases (p == ipproto_udp)) [
      | inl udp ↦ (b, rw (e, udp) d)
      | inr other ↦ (false, rw (e, other) refl)
    ]

-- In a buffer of 44 bytes or more the check for DHCP reads nothing behind it.
pub classify-long :
    (proto : ℕ) (buffer : List ℕ) → 44 ≤ length buffer → classify proto buffer ≡ ok true
unfolding classify check_dhcp
classify-long proto buffer h = elim (Bool-cases (proto == ethertype_ip)) [
  | inl e ↦ rw e (rw ((udp-long 20 68 67 9 buffer (omega arith) (omega arith)).1) refl)
  | inr e ↦ rw e (rw ((udp-long 40 546 547 6 buffer (omega arith) (omega arith)).1) refl)
]

pub length-gre_header : (key proto sequence : ℕ) → length (gre_header key proto sequence true) ≡ 12
unfolding gre_header htons htonl
length-gre_header key proto sequence = refl

-- The tunnel choice for a packet that counts as DHCP, with the LTE tunnel up.
forward_lte :
    (proto : ℕ) (packet : List ℕ) (t : Thread) (s : State)
    → s.runtime.lte.tunnel_established ≡ true
    → length packet ≤ 1488
    → let bytes = gre_header s.runtime.haap.bonding_key proto t.sequence true ++ packet in
      forward proto true packet t s
      ≡ ok (
        record t { sequence = u32 (t.sequence + 1) },
        called (sendmsg s.runtime.lte.interface_ip s.runtime.haap.ip bytes) s,
      )
unfolding forward send_gre
forward_lte proto packet t s up short =
    let header = gre_header s.runtime.haap.bonding_key proto t.sequence true in
    let size = length-append header packet in
    let fits : leb (length (header ++ packet)) max_pkt_size ≡ true =
      ground (arith, size, length-gre_header s.runtime.haap.bonding_key proto t.sequence) in
    simp (up, fits) refl

-- What is in the buffer after a read.
abbrev pub filled : List ℕ → Thread → Thread
filled packet t = record t { buffer = packet ++ drop (length packet) t.buffer }

pub length-filled :
    (packet : List ℕ) (t : Thread) → length t.buffer ≤ length ((filled packet t).buffer)
length-filled packet t = omega (
  arith,
  length-append packet (drop (length packet) t.buffer),
  length-drop (length packet) t.buffer,
)

-- A round on an IP packet.
pub tun2gre_round_sent :
    (packet : List ℕ) (t : Thread) (s : State)
    → s.runtime.lte.tunnel_established ≡ true
    → 44 ≤ length t.buffer
    → IsSendable packet
    → let bytes =
        gre_header s.runtime.haap.bonding_key (protocol packet) t.sequence true ++ packet in
      tun2gre_round packet t s
      ≡ ok (
        record (filled packet t) { sequence = u32 (t.sequence + 1) },
        called (sendmsg s.runtime.lte.interface_ip s.runtime.haap.ip bytes) s,
      )
unfolding tun2gre_round
tun2gre_round_sent [] t s up long h = absurd h
tun2gre_round_sent (byte ∷ packet) t s up long (version, short) =
    let t' = filled (byte ∷ packet) t in
    let enough : 44 ≤ length t'.buffer = omega (arith, length-filled (byte ∷ packet) t) in
    elim (Bool-cases (byte / 16 == 4)) [
      | inl four ↦
          rw (four, classify-long ethertype_ip (t'.buffer) enough)
            (forward_lte ethertype_ip (byte ∷ packet) t' s up short)
      | inr other ↦
          let six : byte / 16 == 6 ≡ true = ground arith in
          rw (other, six, classify-long ethertype_ipv6 (t'.buffer) enough)
            (forward_lte ethertype_ipv6 (byte ∷ packet) t' s up short)
    ]
