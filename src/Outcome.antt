-- ===== src/Outcome.antt =====
-- A call that may panic (`expect`, `unwrap`, indexing).
use swindon.Prelude.{◌⊎◌, ◌≡◌, inl, inr, refl, Option, none, some, arith}

pub data Outcome {ℓ} (A : Type ℓ) : Type ℓ where
  ok : A → Outcome A
  panic : Outcome A

infixl 5 ◌>>=◌
abbrev pub ◌>>=◌ {ℓ κ} : {A : Type ℓ} {B : Type κ} → Outcome A → (A → Outcome B) → Outcome B
ok a >>= f = f a
panic >>= f = panic

abbrev pub expect {ℓ} : {A : Type ℓ} → Option A → Outcome A
expect none = panic
expect (some a) = ok a

pub Outcome-cases : {A : Type 0} (m : Outcome A) → (m ≡ panic) ⊎ ((a : A) × (m ≡ ok a))
Outcome-cases (ok a) = inr (a, refl)
Outcome-cases panic = inl refl

-- The call does not panic, and what it returns satisfies `P`.
abbrev pub Returns {ℓ} : {A : Type ℓ} → (A → Type 0) → Outcome A → Type 0
Returns P (ok a) = P a
Returns P panic = ⊥

pub Returns->>= {ℓ κ} :
    {A : Type ℓ} (P : A → Type 0) {B : Type κ} (Q : B → Type 0) (m : Outcome A) (f : A → Outcome B)
    → Returns P m
    → ((a : A) → P a → Returns Q (f a))
    → Returns Q (m >>= f)
Returns->>= P Q (ok a) f h k = k a h
Returns->>= P Q panic f h k = absurd h

pub Returns-imp {ℓ} :
    {A : Type ℓ} (P Q : A → Type 0) (m : Outcome A)
    → ((a : A) → P a → Q a)
    → Returns P m
    → Returns Q m
Returns-imp P Q (ok a) f h = f a h
Returns-imp P Q panic f h = absurd h

pub Returns-ok :
    {A : Type 0} (P : A → Type 0) (m : Outcome A) → Returns P m → Returns (λ a. P a × (m ≡ ok a)) m
Returns-ok P (ok a) f = (f, refl)
Returns-ok P panic f = absurd f

pub Returns-× {ℓ} :
    {A : Type ℓ} (P Q : A → Type 0) (m : Outcome A)
    → Returns P m
    → Returns Q m
    → Returns (λ a. P a × Q a) m
Returns-× P Q (ok a) f g = (f, g)
Returns-× P Q panic f g = absurd f

-- What a call returns, with what is known of it.
abbrev pub result {ℓ} : {A : Type ℓ} (P : A → Type 0) (m : Outcome A) → Returns P m → (a : A) × P a
result P (ok a) h = (a, h)
result P panic h = absurd h

pub result-ok {ℓ} :
    {A : Type ℓ} (P : A → Type 0) (m : Outcome A) (h : Returns P m) (a : A)
    → m ≡ ok a
    → (result P m h).0 ≡ a
result-ok P (ok b) h a e = ground (arith, e)
result-ok P panic h a e = absurd h
