-- ===== src/Bytes/Total.antt =====
-- Reading and copying words of memory come to a value or a fault, and loop nowhere.
use open_hybrid.Base.{
  ◌≤◌, refl, ℕ, ◌≡◌, inl, inr, List, [], ◌∷◌, ◌++◌, Outcome, ok, ◌>>=◌, length, leb, leb→le,
  Bool-cases, Post, All, All-append, All-take, All-drop, take, drop, length-append, length-take,
  length-drop, arith,
}
use open_hybrid.Bytes.{
  IsByte, IsU32, load16, load32, ntohs, ntohl, host_bytes, memcpy_u32, memcpy_in6,
}

-- A computation with no loop in it.
abbrev pub IsStraight {ℓ} : {A : Type ℓ} → Outcome A → Type 0
IsStraight m = Post Unit (λ x. Unit {0}) m

pub Post-map {ℓ κ} :
    {A : Type ℓ} {B : Type κ} (P : B → Type 0) (m : Outcome A) (f : A → B)
    → IsStraight m
    → ((a : A) → P (f a))
    → Post Unit P (m >>= λ a. ok (f a))
Post-map P (ok a) f h g = g a
Post-map P Outcome.fault f h g = h
Post-map P Outcome.stuck f h g = h

pub load16-IsStraight : (b : List ℕ) → IsStraight (load16 b)
unfolding load16
load16-IsStraight [] = tt
load16-IsStraight (a ∷ []) = tt
load16-IsStraight (a ∷ b ∷ r) = tt

pub load32-IsStraight : (b : List ℕ) → IsStraight (load32 b)
unfolding load32
load32-IsStraight [] = tt
load32-IsStraight (a ∷ []) = tt
load32-IsStraight (a ∷ b ∷ []) = tt
load32-IsStraight (a ∷ b ∷ c ∷ []) = tt
load32-IsStraight (a ∷ b ∷ c ∷ d ∷ r) = tt

pub memcpy_u32-IsStraight : (x : ℕ) (p : List ℕ) (n : ℕ) → IsStraight (memcpy_u32 x p n)
unfolding memcpy_u32
memcpy_u32-IsStraight x p n = elim (Bool-cases (leb n 4)) [
  | inl small ↦ elim (Bool-cases (leb n (length p))) [
    | inl whole ↦ rw (small, whole) (load32-IsStraight _)
    | inr cut ↦ rw (small, cut) tt
  ]
  | inr large ↦ rw large tt
]

pub memcpy_in6-IsStraight : (x p : List ℕ) (n : ℕ) → IsStraight (memcpy_in6 x p n)
unfolding memcpy_in6
memcpy_in6-IsStraight x p n = elim (Bool-cases (leb n 16)) [
  | inl small ↦ elim (Bool-cases (leb n (length p))) [
    | inl whole ↦ rw (small, whole) tt
    | inr cut ↦ rw (small, cut) tt
  ]
  | inr large ↦ rw large tt
]

-- What is read from bytes, and what a copy leaves in a variable.
pub load32-IsU32 : (b : List ℕ) → All IsByte b → Post Unit IsU32 (load32 b)
unfolding load32
load32-IsU32 [] h = tt
load32-IsU32 (a ∷ []) h = tt
load32-IsU32 (a ∷ b ∷ []) h = tt
load32-IsU32 (a ∷ b ∷ c ∷ []) h = tt
load32-IsU32 (a ∷ b ∷ c ∷ d ∷ r) h = omega arith

host_bytes-IsByte : (x : ℕ) → All IsByte (host_bytes x)
unfolding host_bytes
host_bytes-IsByte x = omega arith

pub memcpy_u32-IsU32 :
    (x : ℕ) (p : List ℕ) (n : ℕ) → All IsByte p → Post Unit IsU32 (memcpy_u32 x p n)
unfolding memcpy_u32
memcpy_u32-IsU32 x p n h = elim (Bool-cases (leb n 4)) [
  | inl small ↦ elim (Bool-cases (leb n (length p))) [
    | inl whole ↦
        rw (small, whole)
          (load32-IsU32 (take n p ++ drop n (host_bytes x)) (
            All-append IsByte (take n p) (drop n (host_bytes x)) (All-take IsByte n p h)
              (All-drop IsByte n (host_bytes x) (host_bytes-IsByte x))))
    | inr cut ↦ rw (small, cut) tt
  ]
  | inr large ↦ rw large tt
]

pub memcpy_in6-length :
    (x p : List ℕ) (n : ℕ) → length x ≡ 16 → Post Unit (λ r. length r ≡ 16) (memcpy_in6 x p n)
unfolding memcpy_in6
memcpy_in6-length x p n h = elim (Bool-cases (leb n 16)) [
  | inl small ↦ elim (Bool-cases (leb n (length p))) [
    | inl whole ↦
        rw (small, whole)
          (omega (
            arith,
            length-append (take n p) (drop n x),
            length-take n p,
            length-drop n x,
            leb→le n 16 small,
            leb→le n (length p) whole,
            h,
          ))
    | inr cut ↦ rw (small, cut) tt
  ]
  | inr large ↦ rw large tt
]

-- Where the bytes are there, they are read.
pub load16-long : (b : List ℕ) → 2 ≤ length b → (n : ℕ) × (load16 b ≡ ok n)
unfolding load16
load16-long [] h = absurd (omega arith)
load16-long (x ∷ []) h = absurd (omega arith)
load16-long (x ∷ y ∷ b) h = (ntohs x y, refl)

pub load32-long : (b : List ℕ) → 4 ≤ length b → (n : ℕ) × (load32 b ≡ ok n)
unfolding load32
load32-long [] h = absurd (omega arith)
load32-long (x ∷ []) h = absurd (omega arith)
load32-long (x ∷ y ∷ []) h = absurd (omega arith)
load32-long (x ∷ y ∷ z ∷ []) h = absurd (omega arith)
load32-long (x ∷ y ∷ z ∷ w ∷ b) h = (ntohl x y z w, refl)
