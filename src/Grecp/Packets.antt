-- ===== src/Grecp/Packets.antt =====
-- process_grecpmessage of src/grecp.c on the packets that send_grecpmessage builds, and on those
-- that it has to ignore.
use Prim.Native.Nat.{bit_or}
use open_hybrid.Base.{
  ℕ, zero, suc, ◌+◌, ◌-◌, ◌*◌, ◌/◌, ◌%◌, ◌<◌, ◌≡◌, ◌⊎◌, inl, inr, refl, ◌∙◌, Bool, true, false,
  ◌&&◌, List, ◌++◌, length, ◌==◌, ◌!=◌, ==_iff, arith,
}
use open_hybrid.Bytes.{IsU32, ntohl, load16, load32}
use open_hybrid.Runtime.{State}
use open_hybrid.Os.{Os}
use open_hybrid.Grecp.{grecp_tuntype_lte, grecp_tuntype_dsl, grecp_msgtype_accept}
use open_hybrid.Grecp.Message.{grecp_packet}
use open_hybrid.Grecp.Process.{dispatch, process_grecpmessage}

agree_below : ℕ → (ℕ → Bool) → Bool
agree_below zero f = true
agree_below (suc n) f = f n && agree_below n f

agree_below_sound : (n : ℕ) (f : ℕ → Bool) (x : ℕ) → agree_below n f ≡ true → x < n → f x ≡ true
unfolding agree_below
agree_below_sound zero f x h lt = absurd (omega arith)
agree_below_sound (suc n) f x h lt = ground (arith, agree_below_sound n f x)

nibbles_lte : agree_below 16 (λ m. bit_or (m * 16) 0 == m * 16) ≡ true
unfolding agree_below
nibbles_lte = refl

nibbles_dsl : agree_below 16 (λ m. bit_or (m * 16) 8 == m * 16 + 8) ≡ true
unfolding agree_below
nibbles_dsl = refl

-- The two tunnel types that the protocol knows.
abbrev pub IsTunnel : ℕ → Type 0
IsTunnel tuntype = (tuntype ≡ grecp_tuntype_lte) ⊎ (tuntype ≡ grecp_tuntype_dsl)

-- Message type and tunnel type share a byte and are read back from it.
nibbles :
    (msgtype tuntype : ℕ)
    → msgtype < 16
    → IsTunnel tuntype
    → bit_or (msgtype * 16) tuntype ≡ msgtype * 16 + tuntype
nibbles msgtype tuntype h (inl e) = rw e (
    (==_iff _ _).0 (agree_below_sound 16 (λ m. bit_or (m * 16) 0 == m * 16) msgtype nibbles_lte h)
    ∙ omega arith)
nibbles msgtype tuntype h (inr e) = rw e (
    (==_iff _ _).0
      (agree_below_sound 16 (λ m. bit_or (m * 16) 8 == m * 16 + 8) msgtype nibbles_dsl h))

known_tunnel :
    (m t : ℕ)
    → IsTunnel t
    → (((m * 16 + t) % 16 != grecp_tuntype_lte) && ((m * 16 + t) % 16 != grecp_tuntype_dsl)) ≡ false
known_tunnel m t (inl e) = ground arith
known_tunnel m t (inr e) = ground arith

known_key :
    (key bonding_key m t : ℕ)
    → IsU32 key
    → IsTunnel t
    → (key ≡ bonding_key) ⊎ (m ≡ grecp_msgtype_accept)
    → ((ntohl (key / 16777216 % 256) (key / 65536 % 256) (key / 256 % 256) (key % 256)
          != bonding_key)
        && ((m * 16 + t) / 16 != grecp_msgtype_accept))
      ≡ false
known_key key bonding_key m t u i (inl e) = ground arith
known_key key bonding_key m t u (inl i) (inr e) = ground arith
known_key key bonding_key m t u (inr i) (inr e) = ground arith

-- The byte holds what it was built from.
split_byte : (m t : ℕ) → IsTunnel t → ((m * 16 + t) / 16 ≡ m) × ((m * 16 + t) % 16 ≡ t)
split_byte m t (inl e) = omega arith
split_byte m t (inr e) = omega arith

-- A packet as send_grecpmessage builds it, of any message type below 16 and one of the two tunnel
-- types, is taken apart into what it was built from, if its key is the bonding key or it is an
-- accept message; what stands behind it in the buffer plays no part in that.
pub process-grecp_packet :
    (os : Os) (key msgtype tuntype : ℕ) (attributes rest : List ℕ) (s : State)
    → IsU32 key
    → msgtype < 16
    → IsTunnel tuntype
    → (key ≡ s.runtime.haap.bonding_key) ⊎ (msgtype ≡ grecp_msgtype_accept)
    → process_grecpmessage os
        (grecp_packet key msgtype tuntype attributes ++ rest)
        (9 + length attributes)
        s
      ≡ dispatch os msgtype tuntype (attributes ++ rest) (length attributes) s
unfolding process_grecpmessage grecp_packet load16 load32
process-grecp_packet os key msgtype tuntype attributes rest s u m t k =
    let (high, low) = split_byte msgtype tuntype t in
    let left : 9 + length attributes - 8 - 1 ≡ length attributes = omega arith in
    rw (nibbles msgtype tuntype m t) (
      rw (known_key key s.runtime.haap.bonding_key msgtype tuntype u t k)
        (rw (known_tunnel msgtype tuntype t) (rw (high, low, left) refl)))
