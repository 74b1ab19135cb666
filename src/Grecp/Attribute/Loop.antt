-- ===== src/Grecp/Attribute/Loop.antt =====
-- The loop over the attributes ends on every buffer, and stays inside it.
use open_hybrid.Base.{
  Post, Post-bind, ℕ, zero, suc, ◌+◌, ◌-◌, ◌≤◌, ◌<◌, ◌≡◌, ◌⊎◌, inl, inr, refl, List, [], ◌∷◌,
  Outcome, ok, ◌>>=◌, drop, length, length-drop, ltb, arith, Bool-cases, ap,
}
use mathlib.Core.Path.{fun_ext}
use open_hybrid.Bytes.{ntohs}
use open_hybrid.Grecp.Attribute.{
  Attr, no_attr, read_grecpattribute, while_attributes, for_attributes,
}

-- What one read comes to, on a buffer that holds the `size` bytes it announces. What the previous
-- round left in `attr` plays no part in an attribute that is read whole.
pub read_cases :
    (buffer : List ℕ) (size : ℕ)
    → size ≤ length buffer
    → ((attr : Attr) → (a : Attr) × (read_grecpattribute buffer size attr ≡ ok (0, a)))
      ⊎ ((n : ℕ) × (a : Attr) × ((attr : Attr)
            → read_grecpattribute buffer size attr ≡ ok (suc n, a))
          × (n < size)
          × (suc n ≡ 3 + a.length)
          × (a.value ≡ drop 3 buffer))
unfolding read_grecpattribute
read_cases [] zero h = inl (λ attr. (attr, refl))
read_cases [] (suc n) h = absurd (omega arith)
read_cases (a ∷ []) size h = inl (λ attr. (attr, ground arith))
read_cases (a ∷ b ∷ []) size h = inl (λ attr. (attr, ground arith))
read_cases (a ∷ b ∷ c ∷ r) size h = elim (Bool-cases (ltb size 3)) [
  | inl small ↦ inl (λ attr. (attr, ground arith))
  | inr big ↦ elim (Bool-cases (ltb (size - 1 - 2) (ntohs b c))) [
    | inl cut ↦
        inl (λ attr. (record { id = a; length = ntohs b c; value = attr.value }, ground arith))
    | inr fits ↦ inr (
      2 + ntohs b c,
      record { id = a; length = ntohs b c; value = r },
      (λ attr. ground arith),
      ground arith,
      ground arith,
      refl,
    )
  ]
]

-- What is said of a buffer, where it holds of every end of it.
abbrev pub IsSuffixed : (List ℕ → Type 0) → Type 0
IsSuffixed B = (n : ℕ) (buffer : List ℕ) → B buffer → B (drop n buffer)

module _ {ℓ} {S : Type ℓ} (F : Type 0) (B : List ℕ → Type 0) (ends : IsSuffixed B) (P : S → Type 0)
    (body : Attr → S → Outcome S)
    (keep : (a : Attr) (s : S)
      → a.length ≤ length a.value
      → B a.value
      → P s
      → Post F P (body a s)) where
  while_attributes-Within :
      (fuel : ℕ) (buffer : List ℕ) (size : ℕ) (attr : Attr) (s : S)
      → size < fuel
      → size ≤ length buffer
      → B buffer
      → P s
      → Post F P (while_attributes fuel body buffer size attr s)
  unfolding while_attributes
  while_attributes-Within zero buffer size attr s f h b p = absurd (omega arith)
  while_attributes-Within (suc fuel) buffer size attr s f h b p = elim (read_cases buffer size h) [
    | inl none ↦ rw ((none attr).1) p
    | inr (n, a, e, hi, len, val) ↦ rw (e attr) (
        Post-bind F P P (body a s) _
          (keep a s (rw val (omega (arith, length-drop 3 buffer))) (rw val (ends 3 buffer b)) p)
          (λ s' p'.
            while_attributes-Within fuel (drop (suc n) buffer) (size - suc n) a s' (omega arith)
              (omega (arith, length-drop (suc n) buffer)) (ends (suc n) buffer b) p'))
  ]

  -- The invariant rule: what the body keeps, the loop over the attributes keeps. The loop ends, each
  -- attribute that it hands to the body lies inside the buffer, and what is said of the buffer holds
  -- from there on.
  pub for_attributes-Within :
      (buffer : List ℕ) (size : ℕ) (s : S)
      → size ≤ length buffer
      → B buffer
      → P s
      → Post F P (for_attributes body buffer size s)
  unfolding for_attributes
  for_attributes-Within buffer size s h b p =
      while_attributes-Within (suc size) buffer size no_attr s (omega arith) h b p

-- The rule where nothing is said of the buffer.
pub for_attributes-Post {ℓ} :
    {S : Type ℓ} (F : Type 0) (P : S → Type 0) (body : Attr → S → Outcome S)
    → ((a : Attr) (s : S) → a.length ≤ length a.value → P s → Post F P (body a s))
    → (buffer : List ℕ) (size : ℕ) (s : S) → size ≤ length buffer
    → P s
    → Post F P (for_attributes body buffer size s)
for_attributes-Post F P body keep buffer size s h p =
    for_attributes-Within F (λ b. Unit) (λ n b u. tt) P body (λ a s' l u p'. keep a s' l p') buffer
      size s h tt p

module _ {ℓ} {S : Type ℓ} (body : Attr → S → Outcome S) where
  -- Neither the fuel, as far as it suffices, nor the attribute that the loop starts with matters.
  pub while_attributes_fuel :
      (f g : ℕ) (buffer : List ℕ) (size : ℕ) (x y : Attr) (s : S)
      → size < f
      → size < g
      → size ≤ length buffer
      → while_attributes f body buffer size x s ≡ while_attributes g body buffer size y s
  unfolding while_attributes
  while_attributes_fuel zero g buffer size x y s hf hg h = absurd (omega arith)
  while_attributes_fuel (suc f) zero buffer size x y s hf hg h = absurd (omega arith)
  while_attributes_fuel (suc f) (suc g) buffer size x y s hf hg h =
      elim (read_cases buffer size h) [
        | inl none ↦ rw ((none x).1) (rw ((none y).1) refl)
        | inr (n, a, e, hi, len, val) ↦ rw (e x) (
            rw (e y) (
              ap (λ k. body a s >>= k)
                (fun_ext (λ s'.
                  while_attributes_fuel f g (drop (suc n) buffer) (size - suc n) a a s'
                    (omega arith) (omega arith) (omega (arith, length-drop (suc n) buffer))))))
      ]
