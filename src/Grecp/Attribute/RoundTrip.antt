-- ===== src/Grecp/Attribute/RoundTrip.antt =====
-- What append_grecpattribute writes, the loop over the attributes reads back.
use open_hybrid.Base.{
  ℕ, suc, ◌+◌, ◌-◌, ◌≤◌, ◌<◌, ◌≡◌, refl, ◌∙◌, List, [], ◌∷◌, ◌++◌, Outcome, ok, ◌>>=◌, drop, length,
  length-append, drop-append, take-length, arith, ap, sym, All, append_assoc, bind_assoc,
}
use mathlib.Core.Path.{fun_ext, ap₂, ◌≡⟨◌⟩◌, ◌∎}
use native.Mathlib.Nat.{zero-add}
use open_hybrid.Bytes.{IsU16}
use open_hybrid.Grecp.Attribute.{
  Attr, no_attr, read_grecpattribute, append_grecpattribute, while_attributes, for_attributes,
}
use open_hybrid.Grecp.Attribute.Loop.{while_attributes_fuel}

-- The attribute that a handler sees for `value`, with `rest` behind it in the buffer.
abbrev pub attr_at : ℕ → List ℕ → List ℕ → Attr
attr_at id value rest = record { id = id; length = length value; value = value ++ rest }

-- An attribute of up to 65535 bytes that was appended is read back, with its id, its length and its
-- value, whatever stands behind it, if the size covers it.
pub read-append_grecpattribute :
    (id : ℕ) (value rest : List ℕ) (size : ℕ) (attr : Attr)
    → IsU16 (length value)
    → 3 + length value ≤ size
    → read_grecpattribute (append_grecpattribute id (length value) value ++ rest) size attr
      ≡ ok (suc (suc (suc (length value))), attr_at id value rest)
unfolding read_grecpattribute append_grecpattribute
read-append_grecpattribute id value rest size attr h k = ground (arith, take-length value)

-- A list of attributes, each given by its id and its value, as a sender writes them one by one.
unfoldable pub append_attributes : List (ℕ × List ℕ) → List ℕ
append_attributes [] = []
append_attributes ((id, value) ∷ attrs) =
    append_grecpattribute id (length value) value ++ append_attributes attrs

abbrev pub FitsU16 : ℕ × List ℕ → Type 0
FitsU16 (id, value) = IsU16 (length value)

-- The body on each attribute in turn, with what stands behind it in the buffer.
unfoldable pub run_attributes {ℓ} :
    {S : Type ℓ} → (Attr → S → Outcome S) → List (ℕ × List ℕ) → List ℕ → S → Outcome S
run_attributes body [] rest s = ok s
run_attributes body ((id, value) ∷ attrs) rest s =
    body (attr_at id value (append_attributes attrs ++ rest)) s >>= run_attributes body attrs rest

length-append_grecpattribute :
    (id : ℕ) (value : List ℕ)
    → length (append_grecpattribute id (length value) value) ≡ 3 + length value
unfolding append_grecpattribute
length-append_grecpattribute id value = ground (arith, take-length value)

drop-append_grecpattribute :
    (id : ℕ) (value rest : List ℕ)
    → drop (suc (suc (suc (length value)))) (append_grecpattribute id (length value) value ++ rest)
      ≡ rest
unfolding append_grecpattribute
drop-append_grecpattribute id value rest = rw (take-length value) (drop-append value rest)

module _ {ℓ} {S : Type ℓ} (body : Attr → S → Outcome S) where
  -- One round on an attribute that was appended.
  while_attributes-append :
      (fuel id : ℕ) (value rest : List ℕ) (k : ℕ) (attr : Attr) (s : S)
      → IsU16 (length value)
      → while_attributes
          (suc fuel)
          body
          (append_grecpattribute id (length value) value ++ rest)
          (3 + length value + k)
          attr
          s
        ≡ (body (attr_at id value rest) s >>= λ s'.
            while_attributes fuel body rest k (attr_at id value rest) s')
  unfolding while_attributes
  while_attributes-append fuel id value rest k attr s h =
      rw (read-append_grecpattribute id value rest (3 + length value + k) attr h (omega arith))
        (rw (drop-append_grecpattribute id value rest) (rw (sized) refl))
    where
      sized : 3 + length value + k - suc (suc (suc (length value))) ≡ k
      sized = omega arith

  first :
      (id : ℕ) (value rest : List ℕ) (k : ℕ) (s : S)
      → IsU16 (length value)
      → for_attributes body
          (append_grecpattribute id (length value) value ++ rest)
          (3 + length value + k)
          s
        ≡ (body (attr_at id value rest) s >>= λ s'.
            while_attributes (3 + length value + k) body rest k (attr_at id value rest) s')
  unfolding for_attributes
  first id value rest k s h =
      while_attributes-append (3 + length value + k) id value rest k no_attr s h

  later :
      (fuel : ℕ) (buffer : List ℕ) (size : ℕ) (x : Attr) (s : S)
      → size < fuel
      → size ≤ length buffer
      → while_attributes fuel body buffer size x s ≡ for_attributes body buffer size s
  unfolding for_attributes
  later fuel buffer size x s hf h =
      while_attributes_fuel body fuel (suc size) buffer size x no_attr s hf (omega arith) h

  -- Attributes of up to 65535 bytes each are appended one by one, and more bytes follow: the loop
  -- runs its body on exactly these attributes, in their order, and then goes on behind them.
  pub for_attributes-append_attributes :
      (attrs : List (ℕ × List ℕ)) (rest : List ℕ) (k : ℕ) (s : S)
      → All FitsU16 attrs
      → k ≤ length rest
      → for_attributes body
          (append_attributes attrs ++ rest)
          (length (append_attributes attrs) + k)
          s
        ≡ (run_attributes body attrs rest s >>= λ s'. for_attributes body rest k s')
  unfolding run_attributes append_attributes
  for_attributes-append_attributes [] rest k s h hk =
      ap (λ n. for_attributes body rest n s) (zero-add k)
  for_attributes-append_attributes ((id, value) ∷ attrs) rest k s (h, hs) hk =
      let bytes = append_grecpattribute id (length value) value in
      let more = append_attributes attrs in
      let here : Attr = attr_at id value (more ++ rest) in
      let left = length more + k in
      for_attributes body ((bytes ++ more) ++ rest) (length (bytes ++ more) + k) s
      ≡⟨ ap₂ (λ b n. for_attributes body b n s) (append_assoc bytes more rest)
          (omega (arith, length-append bytes more, length-append_grecpattribute id value)) ⟩
        for_attributes body (bytes ++ (more ++ rest)) (3 + length value + left) s
      ≡⟨ first id value (more ++ rest) left s h ⟩
        (body here s >>= λ s'.
        while_attributes (3 + length value + left) body (more ++ rest) left here s')
      ≡⟨ ap (λ g. body here s >>= g)
          (fun_ext (λ s'.
            later (3 + length value + left) (more ++ rest) left here s' (omega arith)
              (omega (arith, length-append more rest))
            ∙ for_attributes-append_attributes attrs rest k s' hs hk)) ⟩
        (body here s >>= λ s'.
        run_attributes body attrs rest s' >>= λ s''. for_attributes body rest k s'')
      ≡⟨ sym (
          bind_assoc (body here s) (run_attributes body attrs rest)
            (λ s''. for_attributes body rest k s'')) ⟩
        (body here s >>= run_attributes body attrs rest >>= λ s''. for_attributes body rest k s'') ∎
