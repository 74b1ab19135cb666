-- ===== src/Logging/Bits.antt =====
-- logger_bitdump of src/logging.c, and base two.
use open_hybrid.Base.{
  ℕ, zero, suc, ◌^◌, ◌+◌, ◌*◌, ◌-◌, ◌/◌, ◌%◌, ◌∙◌, ◌<◌, true, List, [], ◌∷◌, ◌++◌, leb, ◌==◌, ◌≡◌,
  refl, arith, ap,
}
use open_hybrid.Logging.{print_log_header}
use open_hybrid.Logging.Dump.{logger_bitdump}

-- The number that a text of binary digits stands for, the digits before it counted in.
abbrev pub binary : ℕ → List ℕ → ℕ
binary n [] = n
binary n (c ∷ text) = binary (n * 2 + (c - 48)) text

-- The last `n` digits of a byte.
abbrev pub last_bits : ℕ → ℕ → List ℕ
last_bits zero byte = []
last_bits (suc n) byte = (48 + byte / 2 ^ n % 2) ∷ last_bits n byte

-- One more binary digit of a number.
place : (q r : ℕ) (text : List ℕ) → q ≡ r / 2 → binary q ((48 + r % 2) ∷ text) ≡ binary r text
place q r text e = ap (λ n. binary n text) (omega (arith, e))

last_bits-binary : (byte : ℕ) → byte < 256 → binary 0 (last_bits 8 byte) ≡ byte
last_bits-binary byte small =
    place 0 (byte / 128) (last_bits 7 byte) (omega arith)
    ∙ place (byte / 128) (byte / 64) (last_bits 6 byte) (omega arith)
    ∙ place (byte / 64) (byte / 32) (last_bits 5 byte) (omega arith)
    ∙ place (byte / 32) (byte / 16) (last_bits 4 byte) (omega arith)
    ∙ place (byte / 16) (byte / 8) (last_bits 3 byte) (omega arith)
    ∙ place (byte / 8) (byte / 4) (last_bits 2 byte) (omega arith)
    ∙ place (byte / 4) (byte / 2) (last_bits 1 byte) (omega arith)
    ∙ place (byte / 2) (byte / 1) (last_bits 0 byte) (omega arith)
    ∙ omega arith

-- A byte that is dumped at a level that is logged: behind the header and the message stand eight
-- digits that are the byte in base two.
pub logger_bitdump-binary :
    (runtime_level log_level byte : ℕ) (message : List ℕ)
    → leb log_level runtime_level ≡ true
    → byte < 256
    → (logger_bitdump runtime_level log_level byte message ≡ (
      print_log_header log_level ++ message ++ (32 ∷ 32 ∷ last_bits 8 byte ++ 10 ∷ []),
      log_level == 1,
    ))
      × (binary 0 (last_bits 8 byte) ≡ byte)
unfolding logger_bitdump
logger_bitdump-binary runtime_level log_level byte message e small =
    (simp e refl, last_bits-binary byte small)
