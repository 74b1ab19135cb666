-- ===== src/Bytes/Words.antt =====
-- The byte-order functions undo one another.
use open_hybrid.Base.{ℕ, ◌≡◌, ap, List, ◌++◌, ok, arith}
use open_hybrid.Bytes.{IsU16, IsU32, htons, htonl, load16, load32}

pub load16-htons : (n : ℕ) (r : List ℕ) → IsU16 n → load16 (htons n ++ r) ≡ ok n
unfolding load16 htons
load16-htons n r h = ap ok (omega arith)

pub load32-htonl : (n : ℕ) (r : List ℕ) → IsU32 n → load32 (htonl n ++ r) ≡ ok n
unfolding load32 htonl
load32-htonl n r h = ap ok (omega arith)
