-- ===== src/Threads.antt =====
-- The names that the two threads of the data plane give themselves, at the start of gre2tun_main in
-- src/gre2tun.c and of tun2gre_main in src/tun2gre.c.
use open_hybrid.Base.{
  ℕ, zero, suc, ◌-◌, ◌≤◌, ◌<◌, ◌≡◌, ◌≢◌, refl, ap, ◌∙◌, true, false, inl, inr, Bool-cases, List, [],
  ◌∷◌, ◌++◌, All, All-append, append-nil, append_assoc, ltb→lt, ==_iff, Outcome, ok, fault, ◌>>=◌,
  take, length, length-append, length-take, replicate, ltb, ◌==◌, if◌then◌else◌, arith,
}
use open_hybrid.Base.Text.{codes}

-- IF_NAMESIZE of the C library.
abbrev pub if_namesize : ℕ
if_namesize = 16

-- What strncpy(to, from, n) writes: up to n characters of the text, and zeros behind a shorter one.
unfoldable pub strncpy : ℕ → List ℕ → List ℕ
strncpy n text = take n text ++ replicate (n - length text) 0

-- The text that "%s" finds in an array: it has to end there.
unfoldable pub text_in : List ℕ → Outcome (List ℕ)
text_in [] = fault
text_in (c ∷ array) = if c == 0 then ok [] else (text_in array >>= λ text. ok (c ∷ text))

-- `trimifname` has IF_NAMESIZE - 6 characters, of which strncpy writes all but the last; `stray` is what
-- the last one, which nothing sets, happens to hold. sprintf behind the end of `threadname` is a fault.
unfoldable pub thread_name : ℕ → List ℕ → List ℕ → Outcome (List ℕ)
unfolding strncpy text_in
thread_name stray suffix name =
    text_in (strncpy (if_namesize - 7) name ++ stray ∷ []) >>= λ trimmed.
    if ltb (length (trimmed ++ suffix)) if_namesize then ok (trimmed ++ suffix) else fault

abbrev pub recv_suffix : List ℕ
recv_suffix = codes "-recv"

abbrev pub send_suffix : List ℕ
send_suffix = codes "-send"

-- No zero in a text.
abbrev pub IsText : List ℕ → Type 0
IsText text = All (λ c. c ≢ 0) text

IsText-take : (n : ℕ) (text : List ℕ) → IsText text → IsText (take n text)
IsText-take zero text h = tt
IsText-take (suc n) [] h = tt
IsText-take (suc n) (x ∷ text) (h, hs) = (h, IsText-take n text hs)

take-short : (n : ℕ) (text : List ℕ) → length text ≤ n → take n text ≡ text
take-short zero [] h = refl
take-short zero (x ∷ text) h = absurd (omega arith)
take-short (suc n) [] h = refl
take-short (suc n) (x ∷ text) h = ap (◌∷◌ x) (take-short n text (omega arith))

text_in_ends : (text array : List ℕ) → IsText text → text_in (text ++ 0 ∷ array) ≡ ok text
unfolding text_in
text_in_ends [] array h = refl
text_in_ends (c ∷ text) array (h, hs) =
    let on : (c == 0) ≡ false = ground arith in rw (on, text_in_ends text array hs) refl

-- Where no zero follows either, the reading goes behind the array.
text_in_open : (text : List ℕ) → IsText text → text_in text ≡ fault
unfolding text_in
text_in_open [] h = refl
text_in_open (c ∷ text) (h, hs) =
    let on : (c == 0) ≡ false = ground arith in rw (on, text_in_open text hs) refl

-- The array `trimifname`, of a name of fewer than 9 characters and of a longer one.
strncpy_short :
    (stray : ℕ) (name : List ℕ)
    → IsText name
    → length name < 9
    → text_in (strncpy 9 name ++ stray ∷ []) ≡ ok name
unfolding strncpy
strncpy_short stray name h short =
    let some_zeros : 9 - length name ≡ suc (8 - length name) = omega arith in
    rw (take-short 9 name (omega arith), some_zeros)
      (ap text_in (append_assoc name (0 ∷ replicate (8 - length name) 0) (stray ∷ []))
        ∙ text_in_ends name (replicate (8 - length name) 0 ++ stray ∷ []) h)

strncpy_long :
    (stray : ℕ) (name : List ℕ)
    → IsText name
    → 9 ≤ length name
    → text_in (strncpy 9 name ++ stray ∷ []) ≡ (if stray == 0 then ok (take 9 name) else fault)
unfolding strncpy
strncpy_long stray name h long =
    let no_zeros : 9 - length name ≡ 0 = omega arith in
    let cut = IsText-take 9 name h in
    rw (no_zeros, append-nil (take 9 name))
      (elim (Bool-cases (stray == 0)) [
        | inl e ↦ rw e (rw ((==_iff stray 0).0 e) (text_in_ends (take 9 name) [] cut))
        | inr e ↦
            let set : stray ≢ 0 = ground arith in
            rw e (
              text_in_open (take 9 name ++ stray ∷ [])
                (All-append (λ c. c ≢ 0) (take 9 name) (stray ∷ []) cut (set, tt)))
      ])

-- What a thread is to be named: the first nine characters of the interface, and the suffix.
abbrev pub named : ℕ → List ℕ → List ℕ → Outcome (List ℕ)
named stray suffix name =
    if ltb (length name) 9
    then ok (name ++ suffix)
    else if stray == 0
    then ok (take 9 name ++ suffix)
    else fault

thread_name-named :
    (stray : ℕ) (suffix name : List ℕ)
    → length suffix ≤ 6
    → IsText name
    → thread_name stray suffix name ≡ named stray suffix name
unfolding thread_name
thread_name-named stray suffix name h text = elim (Bool-cases (ltb (length name) 9)) [
  | inl short ↦
      let fits : ltb (length (name ++ suffix)) 16 ≡ true =
        ground (arith, length-append name suffix) in
      rw (strncpy_short stray name text (ltb→lt _ _ short), short) (rw fits refl)
  | inr long ↦
      let fits : ltb (length (take 9 name ++ suffix)) 16 ≡ true =
        ground (arith, length-append (take 9 name) suffix, length-take 9 name) in
      rw (strncpy_long stray name text (ground arith), long)
        (elim (Bool-cases (stray == 0)) [ inl e ↦ rw e (rw fits refl) | inr e ↦ rw e refl ])
]

-- The tunnel interface has a name without a zero in it. If the name has fewer than 9 characters, both
-- threads are named after all of it, whatever the array held before. A longer name is cut to 9
-- characters if the last place of the array, which nothing sets, holds a zero, and else each of
-- the two threads reads behind its array.
pub thread_name-suffixes :
    (stray : ℕ) (name : List ℕ)
    → IsText name
    → (thread_name stray recv_suffix name ≡ (
        if ltb (length name) 9
        then ok (name ++ recv_suffix)
        else if stray == 0
        then ok (take 9 name ++ recv_suffix)
        else fault))
      × (thread_name stray send_suffix name ≡ (
          if ltb (length name) 9
          then ok (name ++ send_suffix)
          else if stray == 0
          then ok (take 9 name ++ send_suffix)
          else fault))
thread_name-suffixes stray name h = (
  thread_name-named stray recv_suffix name (omega arith) h,
  thread_name-named stray send_suffix name (omega arith) h,
)
