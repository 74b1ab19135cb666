-- ===== src/Logging/Rows.antt =====
-- logger_hexdump of src/logging.c, against a description by rows of 16 bytes.
use open_hybrid.Base.{
  ℕ, suc, ◌*◌, ◌-◌, ◌≤◌, ◌≢◌, true, List, [], ◌∷◌, ◌++◌, map, ok, replicate, length, leb, ◌==◌,
  if◌then◌else◌, ◌≡◌, refl, ap, sym, ◌∙◌, inl, inr, Bool-cases, arith, append_assoc, append-nil,
  length-append,
}
use open_hybrid.Logging.Dump.{hex, set_byte, shown, line_start, dump_bytes, logger_hexdump}
use open_hybrid.Logging.{print_log_header}
use open_hybrid.Logging.Loop.{blanks, rest_text, dump_step, dump_bytes-rest}

-- The bytes of a row, in digits.
abbrev pub hexes : List ℕ → List ℕ
hexes [] = []
hexes (c ∷ row) = 32 ∷ hex 2 c ++ hexes row

-- A row from its offset to the end of its line.
abbrev pub row_text : ℕ → List ℕ → List ℕ
row_text m row =
    32 ∷ 32 ∷ hex 4 (16 * m)
    ++ (hexes row ++ (blanks (16 - length row) ++ (32 ∷ map shown row ++ 10 ∷ [])))

abbrev pub rows_text : ℕ → List (List ℕ) → List ℕ
rows_text m [] = []
rows_text m (row ∷ rows) = row_text m row ++ rows_text (suc m) rows

-- The rows, of which the first has begun.
unfoldable pub rows_from : List ℕ → List ℕ → List (List ℕ)
rows_from row [] = row ∷ []
rows_from row (c ∷ bytes) =
    let next = rows_from (c ∷ []) bytes in
    let same = rows_from (row ++ c ∷ []) bytes in if length row == 16 then row ∷ next else same

hexes-snoc : (row : List ℕ) (c : ℕ) → hexes (row ++ c ∷ []) ≡ hexes row ++ (32 ∷ hex 2 c)
hexes-snoc [] c = refl
hexes-snoc (x ∷ row) c = ap (λ t. 32 ∷ hex 2 x ++ t) (hexes-snoc row c)

-- The text of the rows.
rows_from-text :
    (m : ℕ) (row bytes : List ℕ)
    → (32 ∷ 32 ∷ hex 4 (16 * m)) ++ (hexes row ++ rest_text m row bytes)
      ≡ rows_text m (rows_from row bytes)
unfolding rows_from rest_text
rows_from-text m row [] = sym (append-nil (row_text m row))
rows_from-text m row (c ∷ bytes) = elim (Bool-cases (length row == 16)) [
  | inl e ↦
      let none_left : 16 - length row ≡ 0 = ground arith in
      simp (e, none_left, sym (rows_from-text (suc m) (c ∷ []) bytes), append_assoc) refl
  | inr e ↦
      simp (e, sym (rows_from-text m (row ++ c ∷ []) bytes), hexes-snoc row c, append_assoc) refl
]

-- Everything that the rows hold.
abbrev pub joined : List (List ℕ) → List ℕ
joined [] = []
joined (row ∷ rows) = row ++ joined rows

-- Rows of 16 bytes, the last one of 1 to 16.
abbrev pub AreRows : List (List ℕ) → Type 0
AreRows [] = ⊥
AreRows (row ∷ []) = (1 ≤ length row) × (length row ≤ 16)
AreRows (row ∷ next ∷ rows) = (length row ≡ 16) × AreRows (next ∷ rows)

rows_from-joined : (row bytes : List ℕ) → joined (rows_from row bytes) ≡ row ++ bytes
unfolding rows_from
rows_from-joined row [] = refl
rows_from-joined row (c ∷ bytes) = elim (Bool-cases (length row == 16)) [
  | inl e ↦ simp (e, rows_from-joined (c ∷ []) bytes) refl
  | inr e ↦ simp (e, rows_from-joined (row ++ c ∷ []) bytes, append_assoc) refl
]

AreRows-cons :
    (row : List ℕ) (rows : List (List ℕ)) → length row ≡ 16 → AreRows rows → AreRows (row ∷ rows)
AreRows-cons row [] e h = absurd h
AreRows-cons row (next ∷ rows) e h = (e, h)

rows_from-AreRows :
    (row bytes : List ℕ) → 1 ≤ length row → length row ≤ 16 → AreRows (rows_from row bytes)
unfolding rows_from
rows_from-AreRows row [] h g = (h, g)
rows_from-AreRows row (c ∷ bytes) h g = elim (Bool-cases (length row == 16)) [
  | inl e ↦ simp e (
      AreRows-cons row (rows_from (c ∷ []) bytes) (ground arith)
        (rows_from-AreRows (c ∷ []) bytes (omega arith) (omega arith)))
  | inr e ↦
      let n = length-append row (c ∷ []) in
      let other : length row ≢ 16 = ground arith in
      simp e (rows_from-AreRows (row ++ c ∷ []) bytes (omega (arith, n)) (omega (arith, n)))
]

dump_bytes-rows :
    (c : ℕ) (bytes : List ℕ)
    → dump_bytes 0 (c ∷ bytes) (replicate 17 0) ≡ ok (rows_text 0 (rows_from (c ∷ []) bytes))
unfolding set_byte line_start
dump_bytes-rows c bytes =
    dump_step 0 0 c bytes (replicate 17 0) _ _ refl refl
      (dump_bytes-rest 0 (c ∷ []) (replicate 15 0) bytes (omega arith) refl)
    ∙ ap ok (rows_from-text 0 (c ∷ []) bytes)

-- A dump of one byte or more, at a level that is logged: behind the header and the message it prints
-- the bytes in rows, each with its offset, its bytes in digits, blanks for those that are missing,
-- and its characters. The rows hold the bytes in their order, 16 each, and 1 to 16 in the last. No
-- access misses the array of 17 characters, and the process ends exactly if the level is LOG_FATAL.
pub logger_hexdump-rows :
    (runtime_level log_level c : ℕ) (bytes message : List ℕ)
    → leb log_level runtime_level ≡ true
    → (logger_hexdump runtime_level log_level (c ∷ bytes) message
        ≡ ok (
          print_log_header log_level ++ message ++ rows_text 0 (rows_from (c ∷ []) bytes),
          log_level == 1,
        ))
      × (joined (rows_from (c ∷ []) bytes) ≡ c ∷ bytes)
      × AreRows (rows_from (c ∷ []) bytes)
unfolding logger_hexdump
logger_hexdump-rows runtime_level log_level c bytes message e = (
  simp (e, dump_bytes-rows c bytes) refl,
  rows_from-joined (c ∷ []) bytes,
  rows_from-AreRows (c ∷ []) bytes (omega arith) (omega arith),
)
