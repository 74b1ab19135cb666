-- ===== src/Logging/Loop.antt =====
-- The loop of logger_hexdump of src/logging.c, in the middle of a row of 16 bytes.
use mathlib.Core.Path.{subst}
use open_hybrid.Base.{
  ℕ, zero, suc, ◌+◌, ◌*◌, ◌-◌, ◌%◌, ◌≤◌, ◌≢◌, true, false, List, [], ◌∷◌, ◌++◌, map, ok, ◌>>=◌,
  length, ◌==◌, ◌!=◌, if◌then◌else◌, ◌≡◌, refl, ap, sym, ◌∙◌, arith, append_assoc, length-append,
  bind_assoc,
}
use open_hybrid.Base.Text.{c_string}
use open_hybrid.Logging.Dump.{hex, set_byte, shown, line_start, fill_line, dump_bytes}

abbrev pub blanks : ℕ → List ℕ
blanks zero = []
blanks (suc n) = 32 ∷ 32 ∷ 32 ∷ blanks n

shown_nonzero : (c : ℕ) → (shown c == 0) ≡ false
shown_nonzero c = ground arith

c_string-row : (row rest : List ℕ) → c_string (map shown row ++ 0 ∷ rest) ≡ map shown row
unfolding c_string
c_string-row [] rest = refl
c_string-row (c ∷ row) rest = simp (shown_nonzero c, c_string-row row rest) refl

set_byte-end :
    (row rest : List ℕ) (v x : ℕ)
    → set_byte (length row) v (map shown row ++ x ∷ rest) ≡ ok (map shown row ++ v ∷ rest)
unfolding set_byte
set_byte-end [] rest v x = refl
set_byte-end (c ∷ row) rest v x = ap (λ m. m >>= λ r. ok (shown c ∷ r)) (set_byte-end row rest v x)

map-snoc :
    (row tail : List ℕ) (c : ℕ)
    → map shown (row ++ c ∷ []) ++ tail ≡ map shown row ++ shown c ∷ tail
map-snoc [] tail c = refl
map-snoc (x ∷ row) tail c = ap (◌∷◌ (shown x)) (map-snoc row tail c)

-- Taking up one byte in the array, which had room for it.
take_up :
    (row rest : List ℕ) (c r : ℕ)
    → (set_byte (length row) (shown c) (map shown row ++ 0 ∷ r ∷ rest) >>= λ a1.
        set_byte (length row + 1) 0 a1)
      ≡ ok (map shown (row ++ c ∷ []) ++ 0 ∷ rest)
take_up row rest c r =
    let longer : length (row ++ c ∷ []) ≡ length row + 1 = length-append row (c ∷ []) in
    ap (λ m. m >>= λ a1. set_byte (length row + 1) 0 a1) (set_byte-end row (r ∷ rest) (shown c) 0)
    ∙ ap (set_byte (length row + 1) 0) (sym (map-snoc row (r ∷ rest) c))
    ∙ subst
        (λ n.
          set_byte n 0 (map shown (row ++ c ∷ []) ++ r ∷ rest)
          ≡ ok (map shown (row ++ c ∷ []) ++ 0 ∷ rest))
        longer (set_byte-end (row ++ c ∷ []) rest 0 r)

fill_line-blanks :
    (fuel n i m : ℕ) → i + n ≡ 16 * m → n ≤ 15 → n ≤ fuel → fill_line fuel i ≡ blanks n
unfolding fill_line
fill_line-blanks zero zero i m e h f = refl
fill_line-blanks zero (suc n) i m e h f = absurd (omega arith)
fill_line-blanks (suc fuel) zero i m e h f =
    let ended : (i % 16 != 0) ≡ false = ground arith in simp (ended) refl
fill_line-blanks (suc fuel) (suc n) i m e h f =
    let more : (i % 16 != 0) ≡ true = ground arith in
    simp (more) (
      ap (λ t. 32 ∷ 32 ∷ 32 ∷ t)
        (fill_line-blanks fuel n (suc i) m (omega arith) (omega arith) (omega arith)))

-- What is printed from the byte behind a row on: the rest of the row, and the rows after it.
unfoldable pub rest_text : ℕ → List ℕ → List ℕ → List ℕ
rest_text m row [] = blanks (16 - length row) ++ (32 ∷ map shown row ++ 10 ∷ [])
rest_text m row (c ∷ bytes) =
    let next = rest_text (suc m) (c ∷ []) bytes in
    let same = rest_text m (row ++ c ∷ []) bytes in
    if length row == 16
    then 32 ∷ map shown row ++ 10 ∷ (32 ∷ 32 ∷ hex 4 (16 * suc m) ++ (32 ∷ hex 2 c ++ next))
    else 32 ∷ hex 2 c ++ same

-- One round of the loop, at the place `k` of the array.
pub dump_step :
    (i k c : ℕ) (bytes array a2 text : List ℕ)
    → i % 16 ≡ k
    → (set_byte k (shown c) array >>= λ a1. set_byte (k + 1) 0 a1) ≡ ok a2
    → dump_bytes (suc i) bytes a2 ≡ ok text
    → dump_bytes i (c ∷ bytes) array ≡ ok (line_start i array ++ (32 ∷ hex 2 c ++ text))
unfolding dump_bytes
dump_step i k c bytes array a2 text e set ih =
    let finish = λ (rest : List ℕ). ok (line_start i array ++ (32 ∷ hex 2 c ++ rest)) in
    let go = λ (a : List ℕ). dump_bytes (suc i) bytes a >>= finish in
    ap (λ n. set_byte n (shown c) array >>= λ a1. set_byte (n + 1) 0 a1 >>= go) e
    ∙ sym (bind_assoc (set_byte k (shown c) array) (λ a1. set_byte (k + 1) 0 a1) go)
    ∙ ap (λ m. m >>= go) set
    ∙ ap (λ m. m >>= finish) ih

line_start-inside : (i : ℕ) (array : List ℕ) → i % 16 ≢ 0 → line_start i array ≡ []
unfolding line_start
line_start-inside i array h = let inside : (i % 16 == 0) ≡ false = ground arith in simp inside refl

line_start-row :
    (m : ℕ) (array : List ℕ)
    → line_start (16 * suc m) array
      ≡ (32 ∷ c_string array ++ 10 ∷ []) ++ (32 ∷ 32 ∷ hex 4 (16 * suc m))
unfolding line_start
line_start-row m array =
    let begins : (16 * suc m % 16 == 0) ≡ true = ground arith in
    let later : (16 * suc m != 0) ≡ true = ground arith in simp (begins, later) refl

-- The end of the loop, in the middle of a row.
dump_bytes-nil :
    (m : ℕ) (row rest : List ℕ)
    → 1 ≤ length row
    → length row + length rest ≡ 16
    → dump_bytes (16 * m + length row) [] (map shown row ++ 0 ∷ rest) ≡ ok (rest_text m row [])
unfolding dump_bytes rest_text
dump_bytes-nil m row rest h e =
    let filled =
      fill_line-blanks 16 (16 - length row) (16 * m + length row) (suc m) (omega arith)
        (omega arith) (omega arith) in
    simp (filled, c_string-row row rest) refl

length-map : (row : List ℕ) → length (map shown row) ≡ length row
length-map [] = refl
length-map (c ∷ row) = ap suc (length-map row)

-- A byte that begins the row behind a full one, which has two bytes at least.
dump_bytes-row :
    (m x y : ℕ) (row bytes : List ℕ) (c : ℕ)
    → length (x ∷ y ∷ row) ≡ 16
    → dump_bytes (16 * suc m + 1) bytes (map shown (c ∷ []) ++ 0 ∷ (map shown row ++ 0 ∷ []))
      ≡ ok (rest_text (suc m) (c ∷ []) bytes)
    → dump_bytes (16 * suc m) (c ∷ bytes) (map shown (x ∷ y ∷ row) ++ 0 ∷ [])
      ≡ ok (rest_text m (x ∷ y ∷ row) (c ∷ bytes))
unfolding rest_text set_byte
dump_bytes-row m x y row bytes c full ih =
    let array = map shown (x ∷ y ∷ row) ++ 0 ∷ [] in
    let line = x ∷ y ∷ row in
    let text = 32 ∷ hex 2 c ++ rest_text (suc m) (c ∷ []) bytes in
    let ends : (length line == 16) ≡ true = ground arith in
    let ih' =
      subst
        (λ n.
          dump_bytes n bytes (map shown (c ∷ []) ++ 0 ∷ (map shown row ++ 0 ∷ []))
          ≡ ok (rest_text (suc m) (c ∷ []) bytes))
        (omega arith) ih in
    dump_step (16 * suc m) 0 c bytes array _ _ (omega arith) refl ih'
    ∙ ap (λ t. ok (t ++ text)) (line_start-row m array)
    ∙ ap (λ t. ok (((32 ∷ t ++ 10 ∷ []) ++ (32 ∷ 32 ∷ hex 4 (16 * suc m))) ++ text))
        (c_string-row line [])
    ∙ simp (ends, append_assoc) refl

-- The loop, in the middle of the row `m`.
pub dump_bytes-rest :
    (m : ℕ) (row rest bytes : List ℕ)
    → 1 ≤ length row
    → length row + length rest ≡ 16
    → dump_bytes (16 * m + length row) bytes (map shown row ++ 0 ∷ rest)
      ≡ ok (rest_text m row bytes)
unfolding rest_text
dump_bytes-rest m row rest [] h e = dump_bytes-nil m row rest h e
dump_bytes-rest m row (r ∷ rest) (c ∷ bytes) h e =
    let i = 16 * m + length row in
    let other : (length row == 16) ≡ false = ground arith in
    let longer = length-append row (c ∷ []) in
    let next : dump_bytes (suc i) bytes (map shown (row ++ c ∷ []) ++ 0 ∷ rest)
        ≡ ok (rest_text m (row ++ c ∷ []) bytes) =
      subst
        (λ n.
          dump_bytes n bytes (map shown (row ++ c ∷ []) ++ 0 ∷ rest)
          ≡ ok (rest_text m (row ++ c ∷ []) bytes))
        (omega (arith, longer))
        (dump_bytes-rest m (row ++ c ∷ []) rest bytes (omega (arith, longer))
          (omega (arith, longer))) in
    dump_step i (length row) c bytes _ _ _ (omega arith) (take_up row rest c r) next
    ∙ simp (other, line_start-inside i (map shown row ++ 0 ∷ r ∷ rest) (omega arith)) refl
dump_bytes-rest m [] [] (c ∷ bytes) h e = absurd (omega arith)
dump_bytes-rest m (x ∷ []) [] (c ∷ bytes) h e = absurd (omega arith)
dump_bytes-rest m (x ∷ y ∷ row) [] (c ∷ bytes) h e =
    let ih =
      dump_bytes-rest (suc m) (c ∷ []) (map shown row ++ 0 ∷ []) bytes (omega arith)
        (omega (arith, length-append (map shown row) (0 ∷ []), length-map row)) in
    subst
      (λ n.
        dump_bytes n (c ∷ bytes) (map shown (x ∷ y ∷ row) ++ 0 ∷ [])
        ≡ ok (rest_text m (x ∷ y ∷ row) (c ∷ bytes)))
      (omega arith) (dump_bytes-row m x y row bytes c (omega arith) ih)
