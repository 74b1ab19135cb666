-- ===== src/Grecp/Attribute.antt =====
-- The attribute codec of src/grecp.c (read_grecpattribute, append_grecpattribute) and the loop
-- over the attributes of a message that every handler runs.
pub mod Loop
pub mod RoundTrip
use open_hybrid.Base.{
  ℕ, zero, suc, ◌+◌, ◌-◌, ◌≤◌, ◌<◌, ◌≡◌, refl, Bool, true, false, List, [], ◌∷◌, ◌++◌, Outcome, ok,
  fault, stuck, ◌>>=◌, take, drop, length, ltb, leb, ◌==◌, if◌then◌else◌, arith,
}
use open_hybrid.Bytes.{htons, load16}

-- struct grecpattr. `value` points into the packet buffer: it is everything from there to the end
-- of that buffer, of which `length` bytes belong to the attribute.
pub record Attr : Type 0 where
  pub id : ℕ
  pub length : ℕ
  pub value : List ℕ

-- `struct grecpattr attr = {};`
abbrev pub no_attr : Attr
no_attr = record { id = 0; length = 0; value = [] }

unfoldable pub load8 : List ℕ → Outcome ℕ
load8 [] = fault
load8 (a ∷ r) = ok a

-- Returns the number of bytes read and the attribute; 0 means that nothing was read. A negative
-- size is 0 here, since the code takes both as "nothing to read".
unfoldable pub read_grecpattribute : List ℕ → ℕ → Attr → Outcome (ℕ × Attr)
unfolding load8 load16
read_grecpattribute buffer size attr =
    if size == 0
    then ok (0, attr)
    else if ltb size (1 + 2)
    then ok (0, attr)
    else (load8 buffer >>= λ id. load16 (drop 1 buffer) >>= λ len.
        let attr' : Attr = record attr { id = id; length = len } in
        if ltb (size - 1 - 2) len
        then ok (0, attr')
        else ok (1 + 2 + len, record attr' { value = drop (1 + 2) buffer }))

-- The bytes that are written; their number is what the code returns. Each caller passes a value of
-- at least `len` bytes.
unfoldable pub append_grecpattribute : ℕ → ℕ → List ℕ → List ℕ
unfolding htons
append_grecpattribute id len value = id ∷ (htons len ++ take len value)

-- `while ((bytes_read = read_grecpattribute(buffer += bytes_read, size -= bytes_read, &attr)) > 0)`
-- with the handler's `switch` as body.
unfoldable pub while_attributes {ℓ} :
    {S : Type ℓ} → ℕ → (Attr → S → Outcome S) → List ℕ → ℕ → Attr → S → Outcome S
while_attributes zero body buffer size attr s = stuck
while_attributes (suc fuel) body buffer size attr s =
    read_grecpattribute buffer size attr >>= λ (bytes_read, attr'). elim bytes_read [
      | zero ↦ ok s
      | suc n ↦ body attr' s >>= λ s'.
          while_attributes fuel body (drop (suc n) buffer) (size - suc n) attr' s'
    ]

-- Each round takes three bytes at least, so `size + 1` rounds are enough.
unfoldable pub for_attributes {ℓ} :
    {S : Type ℓ} → (Attr → S → Outcome S) → List ℕ → ℕ → S → Outcome S
unfolding while_attributes
for_attributes body buffer size s = while_attributes (suc size) body buffer size no_attr s
