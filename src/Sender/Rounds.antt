-- ===== src/Sender/Rounds.antt =====
-- What a round of tun2gre_main (src/tun2gre.c) sends.
use open_hybrid.Base.{
  ℕ, ◌+◌, ◌/◌, ◌≡◌, Bool, true, false, Option, none, some, List, [], ◌∷◌, ◌++◌, ◌==◌, if◌then◌else◌,
}
use open_hybrid.Bytes.{u32}
use open_hybrid.Runtime.{Call, State}
use open_hybrid.Os.{called}
use open_hybrid.Sender.{Thread, gre_header, ethertype_ip, ethertype_ipv6}

-- Nothing is sent and no number is used.
abbrev pub IsSilent : Thread → State → Thread × State → Type 0
IsSilent t s r = (r.0.sequence ≡ t.sequence) × (r.1 ≡ s)

-- The packet is sent over the LTE tunnel under the next number.
abbrev pub IsForwarded : ℕ → List ℕ → Thread → State → Thread × State → Type 0
IsForwarded proto packet t s r =
    (r.0.sequence ≡ u32 (t.sequence + 1))
    × (r.1
        ≡ called
            (Call.sendmsg s.runtime.lte.interface_ip s.runtime.haap.ip
              (gre_header s.runtime.haap.bonding_key proto t.sequence true ++ packet))
            s)

-- The protocol by the version of the IP header, if it is one.
abbrev pub carried : List ℕ → Option ℕ
carried [] = none
carried (byte ∷ packet) =
    if byte / 16 == 4
    then some ethertype_ip
    else if byte / 16 == 6
    then some ethertype_ipv6
    else none

-- What a round comes to, by the protocol and by whether the LTE tunnel is up.
abbrev pub IsSentAs : Option ℕ → Bool → List ℕ → Thread → State → Thread × State → Type 0
IsSentAs none up packet t s r = IsSilent t s r
IsSentAs (some proto) false packet t s r = IsSilent t s r
IsSentAs (some proto) true packet t s r = IsForwarded proto packet t s r

abbrev pub IsRound : List ℕ → Thread → State → Thread × State → Type 0
IsRound packet t s r = IsSentAs (carried packet) s.runtime.lte.tunnel_established packet t s r
