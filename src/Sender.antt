-- ===== src/Sender.antt =====
-- src/tun2gre.c: send_gre, and one round of the loop of tun2gre_main. The host is little-endian, so
-- the version of an IP header is the upper half of its first byte. The name of the thread is not
-- modelled.
pub mod Rounds
pub mod Delivery
pub mod Sent
pub mod Runs
use open_hybrid.Base.{
  ℕ, ◌+◌, ◌/◌, Bool, true, false, not, ◌&&◌, List, [], ◌∷◌, ◌++◌, Outcome, ok, fault, ◌>>=◌, drop,
  take, length, leb, ◌==◌, if◌then◌else◌,
}
use open_hybrid.Bytes.{u32, htons, htonl, load16}
use open_hybrid.Runtime.{Call, State}
use open_hybrid.Os.{called}
use open_hybrid.Grecp.{
  grecp_flagsandversion, grecp_flagsandversion_with_seq, grecp_tuntype_lte, grecp_tuntype_dsl,
}
use open_hybrid.Grecp.Attribute.{load8}
use open_hybrid.Grecp.Message.{source_ip}

abbrev pub max_pkt_size : ℕ
max_pkt_size = 1500

-- The GRE header, with the sequence number where it is included.
unfoldable pub gre_header : ℕ → ℕ → ℕ → Bool → List ℕ
unfolding htons htonl
gre_header bonding_key proto sequence include_sequence =
    htons (if include_sequence then grecp_flagsandversion_with_seq else grecp_flagsandversion)
    ++ (htons proto ++ (htonl bonding_key ++ (if include_sequence then htonl sequence else [])))

-- The packet is built in a buffer of 1500 bytes; what does not fit there is written behind it. Where
-- sendmsg fails, that is only logged.
unfoldable pub send_gre : ℕ → ℕ → ℕ → Bool → List ℕ → State → Outcome State
unfolding gre_header
send_gre tuntype proto sequence include_sequence payload s =
    let bytes = gre_header s.runtime.haap.bonding_key proto sequence include_sequence ++ payload in
    if leb (length bytes) max_pkt_size
    then ok (called (Call.sendmsg (source_ip tuntype s) s.runtime.haap.ip bytes) s)
    else fault

-- `ETHERTYPE_IP`, `ETHERTYPE_IPV6` and `IPPROTO_UDP` of the C library.
abbrev pub ethertype_ip : ℕ
ethertype_ip = 0x0800

abbrev pub ethertype_ipv6 : ℕ
ethertype_ipv6 = 0x86dd

abbrev pub ipproto_udp : ℕ
ipproto_udp = 17

-- Whether the UDP header at this offset has these ports.
abbrev pub has_ports : ℕ → ℕ → ℕ → List ℕ → Outcome Bool
has_ports offset sport dport buffer = load16 (drop offset buffer) >>= λ uh_sport.
    if uh_sport == sport
    then (load16 (drop (offset + 2) buffer) >>= λ uh_dport. ok (uh_dport == dport))
    else ok false

-- The check for a DHCP packet, whose result the code then overwrites.
unfoldable pub check_dhcp : ℕ → List ℕ → Outcome Bool
unfolding load8
check_dhcp etherproto buffer =
    if etherproto == ethertype_ip
    then (load8 (drop 9 buffer) >>= λ protocol.
        if protocol == ipproto_udp then has_ports 20 68 67 buffer else ok false)
    else (load8 (drop 6 buffer) >>= λ next_header.
        if next_header == ipproto_udp then has_ports 40 546 547 buffer else ok false)

-- The variables of the thread that live from round to round.
pub record Thread : Type 0 where
  pub sequence : ℕ
  pub buffer : List ℕ

-- Choose the tunnel. `sequence++` counts in a uint32_t.
unfoldable pub forward : ℕ → Bool → List ℕ → Thread → State → Outcome (Thread × State)
unfolding send_gre
forward etherproto is_dhcp payload t s =
    let counted : Thread = record t { sequence = u32 (t.sequence + 1) } in
    if not is_dhcp && s.runtime.dsl.tunnel_established
    then (send_gre grecp_tuntype_dsl etherproto t.sequence true payload s >>= λ s'.
        ok (counted, s'))
    else if s.runtime.lte.tunnel_established
    then (send_gre grecp_tuntype_lte etherproto t.sequence true payload s >>= λ s'.
        ok (counted, s'))
    else ok (t, s)

-- `is_dhcp = true;` behind the check.
unfoldable pub classify : ℕ → List ℕ → Outcome Bool
unfolding check_dhcp
classify etherproto buffer = check_dhcp etherproto buffer >>= λ _. ok true

-- One round of `while (true)` on what the read of the tun device gave: at most 1500 bytes at the front
-- of the buffer, and none where the read failed.
unfoldable pub tun2gre_round : List ℕ → Thread → State → Outcome (Thread × State)
unfolding classify forward
tun2gre_round [] t s = ok (t, s)
tun2gre_round (byte ∷ packet) t s =
    let t' : Thread = record t {
      buffer = (byte ∷ packet) ++ drop (length (byte ∷ packet)) t.buffer;
    } in
    if byte / 16 == 4
    then (classify ethertype_ip t'.buffer >>= λ is_dhcp.
        forward ethertype_ip is_dhcp (byte ∷ packet) t' s)
    else if byte / 16 == 6
    then (classify ethertype_ipv6 t'.buffer >>= λ is_dhcp.
        forward ethertype_ipv6 is_dhcp (byte ∷ packet) t' s)
    else ok (t', s)
