-- ===== src/Base/Memory.antt =====
-- What a piece of C code that touches memory comes to.
use mathlib.Core.Path.{◌≡◌, refl}

-- `fault` is an access outside the object that a pointer points into, which C leaves undefined;
-- `stuck` is no C behaviour: a loop of the model used up its fuel.
pub data Outcome {ℓ} (A : Type ℓ) : Type ℓ where
  ok : A → Outcome A
  fault : Outcome A
  stuck : Outcome A

infixl 5 ◌>>=◌
abbrev pub ◌>>=◌ {ℓ κ} : {A : Type ℓ} {B : Type κ} → Outcome A → (A → Outcome B) → Outcome B
ok a >>= f = f a
fault >>= f = fault
stuck >>= f = stuck

pub bind_assoc {ℓ κ ι} :
    {A : Type ℓ} {B : Type κ} {C : Type ι} (m : Outcome A) (f : A → Outcome B) (g : B → Outcome C)
    → (m >>= f >>= g) ≡ (m >>= λ a. f a >>= g)
bind_assoc (ok a) f g = refl
bind_assoc fault f g = refl
bind_assoc stuck f g = refl

-- What a computation comes to: a result with `P`, or a memory fault if `F` allows it, or a loop
-- without enough fuel if `G` does.
abbrev pub Holds {ℓ} : {S : Type ℓ} → Type 0 → Type 0 → (S → Type 0) → Outcome S → Type 0
Holds F G P (ok s) = P s
Holds F G P fault = F
Holds F G P stuck = G

-- The same where the fuel never runs out.
abbrev pub Post {ℓ} : {S : Type ℓ} → Type 0 → (S → Type 0) → Outcome S → Type 0
Post F P m = Holds F ⊥ P m

pub Holds-bind {ℓ κ} :
    {A : Type ℓ} {B : Type κ} (F G : Type 0) (P : A → Type 0) (Q : B → Type 0) (m : Outcome A)
    (k : A → Outcome B)
    → Holds F G P m
    → ((a : A) → P a → Holds F G Q (k a))
    → Holds F G Q (m >>= k)
Holds-bind F G P Q (ok a) k h g = g a h
Holds-bind F G P Q fault k h g = h
Holds-bind F G P Q stuck k h g = h

pub Post-bind {ℓ κ} :
    {A : Type ℓ} {B : Type κ} (F : Type 0) (P : A → Type 0) (Q : B → Type 0) (m : Outcome A)
    (k : A → Outcome B)
    → Post F P m
    → ((a : A) → P a → Post F Q (k a))
    → Post F Q (m >>= k)
Post-bind F P Q m k h g = Holds-bind F ⊥ P Q m k h g

-- What holds if the fuel suffices, of a computation that ends.
pub Post-of_Holds {ℓ} :
    {S : Type ℓ} (F G : Type 0) (P Q : S → Type 0) (m : Outcome S)
    → Holds F Unit P m
    → Post G Q m
    → Post F (λ s. P s × Q s) m
Post-of_Holds F G P Q (ok s) p q = (p, q)
Post-of_Holds F G P Q fault p q = p
Post-of_Holds F G P Q stuck p q = absurd q

pub Holds-of_Post {ℓ} :
    {S : Type ℓ} (F : Type 0) (P : S → Type 0) (m : Outcome S) → Post F P m → Holds F Unit P m
Holds-of_Post F P (ok s) h = h
Holds-of_Post F P fault h = h
Holds-of_Post F P stuck h = absurd h

pub Post-weaken {ℓ} :
    {S : Type ℓ} (F : Type 0) (P Q : S → Type 0) (m : Outcome S)
    → Post F P m
    → ((s : S) → P s → Q s)
    → Post F Q m
Post-weaken F P Q (ok s) h g = g s h
Post-weaken F P Q fault h g = h
Post-weaken F P Q stuck h g = h
