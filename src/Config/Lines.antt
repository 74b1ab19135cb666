-- ===== src/Config/Lines.antt =====
-- The loop of read_config in src/config.c over the lines of the file, and the bounds.
use mathlib.Core.Path.{subst}
use mathlib.Core.Option.{some_inj}
use open_hybrid.Base.{
  sym, ℕ, ◌≤◌, ◌<◌, Bool, true, false, List, [], ◌∷◌, ◌++◌, Option, none, some, length, drop, All,
  ltb, leb, ◌==◌, if◌then◌else◌, arith, ◌≡◌, refl, ap, inr, length-append, length-drop, leb→le,
}
use open_hybrid.Base.Int.{ℤ, pos, negsuc, pos_part, ltb_ℤ}
use open_hybrid.Base.Text.{codes, c_string, has_prefix}
use open_hybrid.Runtime.{Runtime}
use open_hybrid.Os.{Os}
use open_hybrid.Dhcp.Printed.{length-or_else}
use open_hybrid.Config.{
  Loading, loaded, exited, find_equals, name_limit, read_mtu, read_event_script_path, read_name,
  settings, first_match, read_setting, read_value, read_text, read_line, read_lines,
}
use open_hybrid.Config.Sizes.{GivesSixteen, IsSized, IsMtu, IsSound, Within, Within-bind, Within-if}

short : (n : ℕ) → leb name_limit n ≡ false → n ≤ 14
short n h = ground arith

pub IsMtu-range :
    (n : ℤ) → ltb_ℤ n (pos 1280) ≡ false → ltb_ℤ (pos 1448) n ≡ false → IsMtu (pos_part n)
IsMtu-range (pos n) low high = inr (ground arith, ground arith)
IsMtu-range (negsuc n) low high = ground arith

-- The MTU is refused outside of its bounds.
read_mtu-Within :
    (F : Type 0) (n : ℕ) (z : ℤ) (r : Runtime) → IsSized n r → Within F (IsSound n) (read_mtu z r)
unfolding read_mtu
read_mtu-Within F n z r h =
    Within-if F (IsSound n) (ltb_ℤ z (pos 1280)) _ _ (λ _. tt)
      λ low.
        Within-if F (IsSound n) (ltb_ℤ (pos 1448) z) _ _ (λ _. tt)
          λ high. (h, IsMtu-range z low high)

read_event_script_path-Within :
    (F : Type 0) (n : ℕ) (value : List ℕ) (r : Runtime)
    → (length value ≤ 128 → length value ≤ n)
    → (127 < length value → F)
    → IsSound n r
    → Within F (IsSound n) (read_event_script_path value r)
unfolding read_event_script_path
read_event_script_path-Within F n value r fits long ((l, d, t, _, a), m) =
    Within-if F (IsSound n) (leb (length value) 128) _ _
      (λ e. ((l, d, t, fits (leb→le (length value) 128 e), a), m)) (λ e. long (ground arith))

-- A name of less than 15 characters is taken.
read_name-Within :
    (F : Type 0) (n : ℕ) (value : List ℕ) (r : Runtime)
    → (length value ≤ 14 → IsSound n r)
    → Within F (IsSound n) (read_name value r)
unfolding read_name
read_name-Within F n value r h =
    Within-if F (IsSound n) (leb name_limit (length value)) exited (loaded r) (λ _. tt)
      (λ e. h (short (length value) e))

bonding-IsSound :
    (n : ℕ) (b : Bool) (r : Runtime)
    → IsSound n r
    → IsSound n (if b then record r { bonding = true } else r)
bonding-IsSound n true r s = s
bonding-IsSound n false r s = s

-- What one comparison leads to keeps `P`, if it holds for the line.
abbrev pub Keeps : Type 0 → (Runtime → Type 0) → List ℕ → List ℕ × (Runtime → Loading) → Type 0
Keeps F P line (prefix, act) =
    has_prefix prefix line ≡ true → (r : Runtime) → P r → Within F P (act r)

-- Every comparison of the chain keeps the bounds.
pub settings-Keeps :
    (F : Type 0) (n : ℕ) (os : Os) (line value : List ℕ)
    → GivesSixteen os
    → (has_prefix (codes "event script path =") line ≡ true → length value ≤ 128 → length value ≤ n)
    → (has_prefix (codes "event script path =") line ≡ true → 127 < length value → F)
    → All (Keeps F (IsSound n) line) (settings os value)
unfolding settings
settings-Keeps F n os line value h6 fits long = (
  λ e r ((l, d, t, p, a), m). ((l, d, t, p, length-or_else 16 _ _ (h6 value) a), m),
  (
    λ e r ((l, d, t, p, a), m). read_name-Within F n value _ (λ k. ((k, d, t, p, a), m)),
    (
      λ e r ((l, d, t, p, a), m). read_name-Within F n value _ (λ k. ((l, k, t, p, a), m)),
      (
        λ e r ((l, d, t, p, a), m). read_name-Within F n value _ (λ k. ((l, d, k, p, a), m)),
        (
          λ e r s. bonding-IsSound n _ r s,
          (
            λ e r s. s,
            (
              λ e r s. read_mtu-Within F n _ r s.0,
              (
                λ e r s. s,
                (
                  λ e r s. s,
                  (
                    λ e r s. read_event_script_path-Within F n value r (fits e) (long e) s,
                    (λ e r s. s, tt),
                  ),
                ),
              ),
            ),
          ),
        ),
      ),
    ),
  ),
)

has_prefix-split :
    (prefix line : List ℕ)
    → has_prefix prefix line ≡ true
    → line ≡ prefix ++ drop (length prefix) line
unfolding has_prefix
has_prefix-split [] line h = refl
has_prefix-split (p ∷ prefix) [] h = ground arith
has_prefix-split (p ∷ prefix) (c ∷ line) h = ground (arith, has_prefix-split prefix line)

-- The value of a script path stands behind 20 characters.
script_path_length :
    (line rest : List ℕ)
    → has_prefix (codes "event script path =") line ≡ true
    → find_equals line ≡ some rest
    → 127 < length (drop 2 rest)
    → 147 < length line
unfolding find_equals
script_path_length line rest h e long =
    let t = drop 19 line in
    let split = has_prefix-split (codes "event script path =") line h in
    let found = subst (λ l. find_equals l ≡ some rest) split e in
    let tail = subst (λ l. 127 < length (drop 2 l)) (some_inj.0 (sym found)) long in
    let total = ap length split in
    omega (arith, tail, length-drop 1 t, total, length-append (codes "event script path =") t)

c_string_shorter : (text : List ℕ) → length (c_string text) ≤ length text
unfolding c_string
c_string_shorter [] = omega arith
c_string_shorter (c ∷ text) = ground (arith, c_string_shorter text)

-- A line of at most 147 characters overflows nothing.
abbrev pub HasRoom : Type 0 → List ℕ → Type 0
HasRoom F line = 147 < length line → F

-- What every comparison of the chain keeps, the whole loop keeps.
module _ (F : Type 0) (P : Runtime → Type 0) (os : Os)
    (chain : (line value : List ℕ)
      → (has_prefix (codes "event script path =") line ≡ true → 127 < length value → F)
      → All (Keeps F P line) (settings os value)) where
  first_match-Within :
      (line : List ℕ) (table : List (List ℕ × (Runtime → Loading))) (r : Runtime)
      → All (Keeps F P line) table
      → P r
      → Within F P (first_match line table r)
  unfolding first_match
  first_match-Within line [] r h s = s
  first_match-Within line ((prefix, act) ∷ table) r (h, hs) s =
      Within-if F P (has_prefix prefix line) _ _ (λ e. h e r s)
        (λ _. first_match-Within line table r hs s)

  read_value-Within :
      (line : List ℕ) (o : Option (List ℕ)) (r : Runtime)
      → HasRoom F line
      → find_equals line ≡ o
      → P r
      → Within F P (read_value os line o r)
  unfolding read_value read_setting
  read_value-Within line none r room e s = s
  read_value-Within line (some rest) r room e s =
      Within-if F P (ltb 2 (length rest)) _ _
        (λ _.
          first_match-Within line (settings os (drop 2 rest)) r
            (chain line (drop 2 rest) (λ h long. room (script_path_length line rest h e long))) s)
        (λ _. s)

  read_line-Within :
      (line : List ℕ) (r : Runtime) → HasRoom F line → P r → Within F P (read_line os line r)
  unfolding read_line read_text
  read_line-Within [] r room s = s
  read_line-Within (c ∷ line) r room s =
      Within-if F P (c == 35) _ _ (λ _. s)
        λ _.
          read_value-Within (c_string (c ∷ line)) _ r
            (λ long. room (omega (arith, c_string_shorter (c ∷ line)))) refl s

  pub read_lines-Within :
      (lines : List (List ℕ)) (r : Runtime)
      → All (HasRoom F) lines
      → P r
      → Within F P (read_lines os lines r)
  unfolding read_lines
  read_lines-Within [] r rooms s = s
  read_lines-Within (line ∷ lines) r (room, rooms) s =
      Within-bind F P P (read_line os line r) (read_lines os lines) (read_line-Within line r room s)
        (λ r s. read_lines-Within lines r rooms s)
