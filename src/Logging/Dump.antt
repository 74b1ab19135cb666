-- ===== src/Logging/Dump.antt =====
-- logger_hexdump and logger_bitdump of src/logging.c. An access outside of asciibuffer is a fault.
use open_hybrid.Base.{
  ℕ, zero, suc, ◌+◌, ◌-◌, ◌/◌, ◌%◌, ◌^◌, Bool, ◌||◌, List, [], ◌∷◌, ◌++◌, Outcome, ok, fault, ◌>>=◌,
  replicate, ltb, leb, ◌==◌, ◌!=◌, if◌then◌else◌,
}
use open_hybrid.Base.Text.{c_string}
use open_hybrid.Logging.{print_log_header}

-- "%02x" of a byte, and "%04x" of a number below 65536: that many digits.
abbrev pub hex_digit : ℕ → ℕ
hex_digit n = if ltb n 10 then 48 + n else 87 + n

abbrev pub hex : ℕ → ℕ → List ℕ
hex zero n = []
hex (suc width) n = hex width (n / 16) ++ hex_digit (n % 16) ∷ []

unfoldable pub set_byte : ℕ → ℕ → List ℕ → Outcome (List ℕ)
set_byte n v [] = fault
set_byte zero v (c ∷ array) = ok (v ∷ array)
set_byte (suc n) v (c ∷ array) = set_byte n v array >>= λ rest. ok (c ∷ rest)

-- What is shown of a byte: itself, if it can be printed, or a point.
abbrev pub shown : ℕ → ℕ
shown c = if ltb c 32 || ltb 126 c then 46 else c

-- What is printed where a line starts, of the line before it and of the offset.
unfoldable pub line_start : ℕ → List ℕ → List ℕ
line_start i asciibuffer =
    if i % 16 == 0
    then (if i != 0 then 32 ∷ c_string asciibuffer ++ 10 ∷ [] else []) ++ (32 ∷ 32 ∷ hex 4 i)
    else []

-- The blanks behind the last byte: 16 rounds are enough.
unfoldable pub fill_line : ℕ → ℕ → List ℕ
fill_line zero i = []
fill_line (suc fuel) i =
    let rest = fill_line fuel (suc i) in if i % 16 != 0 then 32 ∷ 32 ∷ 32 ∷ rest else []

-- The loop from the byte `i` on, and what follows it: all that is printed from there.
unfoldable pub dump_bytes : ℕ → List ℕ → List ℕ → Outcome (List ℕ)
dump_bytes i [] asciibuffer = ok (fill_line 16 i ++ (32 ∷ c_string asciibuffer ++ 10 ∷ []))
dump_bytes i (c ∷ bytes) asciibuffer = set_byte (i % 16) (shown c) asciibuffer >>= λ a1.
    set_byte (i % 16 + 1) 0 a1 >>= λ a2.
    dump_bytes (suc i) bytes a2 >>= λ rest. ok (line_start i asciibuffer ++ (32 ∷ hex 2 c ++ rest))

-- What is printed, and whether the process ends. The first argument is runtime.log_level.
unfoldable pub logger_hexdump : ℕ → ℕ → List ℕ → List ℕ → Outcome (List ℕ × Bool)
logger_hexdump runtime_level log_level bytes message =
    (if leb log_level runtime_level
      then (dump_bytes 0 bytes (replicate 17 0) >>= λ text.
          ok (print_log_header log_level ++ message ++ text))
      else ok [])
    >>= λ text. ok (text, log_level == 1)

-- `!!((byte << i) & 0x80)`: the bit 7 - i.
abbrev pub bit : ℕ → ℕ → ℕ
bit byte i = byte / 2 ^ (7 - i) % 2

unfoldable pub logger_bitdump : ℕ → ℕ → ℕ → List ℕ → List ℕ × Bool
logger_bitdump runtime_level log_level byte message = (
  if leb log_level runtime_level
      then print_log_header log_level
        ++ message
        ++ (32
            ∷ 32
            ∷ (48 + bit byte 0)
            ∷ (48 + bit byte 1)
            ∷ (48 + bit byte 2)
            ∷ (48 + bit byte 3)
            ∷ (48 + bit byte 4)
            ∷ (48 + bit byte 5)
            ∷ (48 + bit byte 6)
            ∷ (48 + bit byte 7)
            ∷ 10
            ∷ [])
      else [],
  log_level == 1,
)
