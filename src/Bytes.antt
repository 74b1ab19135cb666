-- ===== src/Bytes.antt =====
-- Bytes and words of src/*.c: htons/ntohs and htonl/ntohl on what stands in memory, and
-- memcpy into a 32-bit variable. A buffer is the list of its bytes. The host is little-endian.
pub mod Words
pub mod Total
use open_hybrid.Base.{
  ℕ, ◌+◌, ◌*◌, ◌/◌, ◌%◌, ◌^◌, ◌<◌, Bool, List, [], ◌∷◌, ◌++◌, Outcome, ok, fault, take, drop,
  length, leb, if◌then◌else◌,
}

abbrev pub IsByte : ℕ → Type 0
IsByte b = b < 256

abbrev pub IsU16 : ℕ → Type 0
IsU16 n = n < 65536

abbrev pub IsU32 : ℕ → Type 0
IsU32 n = n < 4294967296

abbrev pub u8 : ℕ → ℕ
u8 n = n % 256

abbrev pub u32 : ℕ → ℕ
u32 n = n % 4294967296

-- The bytes that a variable holds after `x = htons(n)`, in memory order.
unfoldable pub htons : ℕ → List ℕ
htons n = (n / 256 % 256) ∷ (n % 256) ∷ []

-- The bytes that a variable holds after `x = htonl(n)`, in memory order.
unfoldable pub htonl : ℕ → List ℕ
htonl n = (n / 16777216 % 256) ∷ (n / 65536 % 256) ∷ (n / 256 % 256) ∷ (n % 256) ∷ []

-- `ntohs` of two bytes of memory.
abbrev pub ntohs : ℕ → ℕ → ℕ
ntohs a b = a * 256 + b

-- `ntohl` of four bytes of memory.
abbrev pub ntohl : ℕ → ℕ → ℕ → ℕ → ℕ
ntohl a b c d = a * 16777216 + b * 65536 + c * 256 + d

-- `memcpy(&x, p, 2); x = ntohs(x);`: the two bytes at `p`.
unfoldable pub load16 : List ℕ → Outcome ℕ
load16 (a ∷ b ∷ r) = ok (ntohs a b)
load16 _ = fault

-- `memcpy(&x, p, 4); x = ntohl(x);`: the four bytes at `p`.
unfoldable pub load32 : List ℕ → Outcome ℕ
load32 (a ∷ b ∷ c ∷ d ∷ r) = ok (ntohl a b c d)
load32 _ = fault

-- The bytes of a 32-bit variable of this host, lowest first.
unfoldable pub host_bytes : ℕ → List ℕ
host_bytes n = (n % 256) ∷ (n / 256 % 256) ∷ (n / 65536 % 256) ∷ (n / 16777216 % 256) ∷ []

-- `memcpy(&x, p, n); x = ntohl(x);` for a uint32_t x: the first n bytes of x are replaced. More
-- than four bytes do not fit x, and fewer than n bytes at p cannot be read.
unfoldable pub memcpy_u32 : ℕ → List ℕ → ℕ → Outcome ℕ
memcpy_u32 x p n =
    if leb n 4
    then (if leb n (length p) then load32 (take n p ++ drop n (host_bytes x)) else fault)
    else fault

-- `memcpy(&ip, p, n)` for a struct in6_addr of 16 bytes.
unfoldable pub memcpy_in6 : List ℕ → List ℕ → ℕ → Outcome (List ℕ)
memcpy_in6 ip p n =
    if leb n 16 then (if leb n (length p) then ok (take n p ++ drop n ip) else fault) else fault
