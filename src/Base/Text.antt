-- ===== src/Base/Text.antt =====
-- Texts of the source as lists of their characters, and C strings in them.
use Prim.Native.Char.{code}
use Prim.Native.String.{String}
use Prim.Native.Nat.{ℕ, zero, suc, ◌+◌, ◌-◌, ◌*◌, ◌/◌, ◌%◌, ◌^◌, ◌≤◌, ◌<◌}
use mathlib.Core.Bool.{Bool, true, false, ◌&&◌}
use mathlib.Core.Path.{◌≡◌, refl}
use mathlib.Core.Logic.{◌≢◌, inl, inr}
use mathlib.Core.List.{List, [], ◌∷◌, ◌++◌}
use native.Mathlib.Omega.{arith}
use native.Mathlib.Numerals.{unary_clauses}
use open_hybrid.Base.Tests.{ltb, ◌==◌, if◌then◌else◌, Bool-cases}
use open_hybrid.Base.Lists.{All, length, length-append}

-- A literal of the source.
abbrev pub codes : String → List ℕ
codes String.[] = []
codes (String.◌∷◌ c s) = code c ∷ codes s

-- What the string functions of C see of an array: everything before the first zero.
unfoldable pub c_string : List ℕ → List ℕ
c_string [] = []
c_string (c ∷ text) = if c == 0 then [] else c ∷ c_string text

-- strncmp(line, prefix, strlen(prefix)) == 0.
unfoldable pub has_prefix : List ℕ → List ℕ → Bool
has_prefix [] line = true
has_prefix (p ∷ prefix) [] = false
has_prefix (p ∷ prefix) (c ∷ line) = p == c && has_prefix prefix line

-- The decimal digits of a number, the last `fuel` of them at most.
unfoldable digits : ℕ → ℕ → List ℕ
digits zero n = []
digits (suc fuel) n =
    let more = digits fuel (n / 10) in
    if ltb n 10 then (48 + n) ∷ [] else more ++ (48 + n % 10) ∷ []

-- "%u" of an unsigned number of 32 bits, which has ten digits at most.
unfoldable pub decimal : ℕ → List ℕ
unfolding digits
decimal n = digits 10 n

length-digits : (fuel n : ℕ) → length (digits fuel n) ≤ fuel
unfolding digits
length-digits zero n = omega arith
length-digits (suc fuel) n = elim (Bool-cases (ltb n 10)) [
  | inl e ↦ simp (e) (omega arith)
  | inr e ↦ simp (e) (
      omega (
        arith,
        length-digits fuel (n / 10),
        length-append (digits fuel (n / 10)) ((48 + n % 10) ∷ []),
      ))
]

pub length-decimal : (n : ℕ) → length (decimal n) ≤ 10
unfolding decimal
length-decimal n = length-digits 10 n

-- The number that a text of digits stands for, the digits before it counted in.
abbrev pub number : ℕ → List ℕ → ℕ
number n [] = n
number n (c ∷ text) = number (n * 10 + (c - 48)) text

number-append : (m : ℕ) (xs ys : List ℕ) → number m (xs ++ ys) ≡ number (number m xs) ys
number-append m [] ys = refl
number-append m (x ∷ xs) ys = number-append (m * 10 + (x - 48)) xs ys

number-digits : (fuel n : ℕ) → n < 10 ^ fuel → number 0 (digits fuel n) ≡ n
unfolding digits
number-digits zero n h = omega arith
number-digits (suc fuel) n h =
    let small : n / 10 < 10 ^ fuel = omega (arith, simp unary_clauses at h) in
    elim (Bool-cases (ltb n 10)) [
      | inl e ↦ simp (e) (omega arith)
      | inr e ↦
          simp
            (
              e,
              number-append 0 (digits fuel (n / 10)) ((48 + n % 10) ∷ []),
              number-digits fuel (n / 10) small,
            )
            (omega arith)
    ]

-- Ten digits are enough for 32 bits: the decimal text stands for the number.
pub number-decimal : (n : ℕ) → n < 2 ^ 32 → number 0 (decimal n) ≡ n
unfolding decimal
number-decimal n h = number-digits 10 n (omega arith)

-- Neither a zero nor an end of line.
abbrev pub IsPlain : ℕ → Type 0
IsPlain c = (c ≢ 0) × (c ≢ 10)

pub c_string-IsPlain : (text : List ℕ) → All IsPlain text → c_string text ≡ text
unfolding c_string
c_string-IsPlain [] h = refl
c_string-IsPlain (c ∷ text) ((z, n), hs) = ground (arith, c_string-IsPlain text hs)
