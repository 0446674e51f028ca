-- ===== src/Heap/Slab.antt =====
-- The crate `slab`: a store that hands out keys. Its documented behaviour, as laws on `get`.
use swindon.Prelude.{ℕ, ◌≡◌, Option, none, some, ◌==◌, nat_eq, if◌then◌else◌, option_map}
use swindon.Outcome.{Outcome, ok, ◌>>=◌, expect}

pub record Slabs : Type 1 where
  pub Slab : Type 0 → Type 0
  pub new : {A : Type 0} → Slab A
  pub get : {A : Type 0} → Slab A → ℕ → Option A
  -- `vacant_entry().key()`, the key that the next insertion uses.
  pub vacant : {A : Type 0} → Slab A → ℕ
  pub insert : {A : Type 0} → Slab A → A → Slab A
  -- A write through `get_mut` or an index; nothing happens at a vacant key.
  pub write : {A : Type 0} → Slab A → ℕ → A → Slab A
  pub remove : {A : Type 0} → Slab A → ℕ → Slab A
  pub get-new : {A : Type 0} (k : ℕ) → get (new {A = A}) k ≡ none
  pub get-vacant : {A : Type 0} (s : Slab A) → get s (vacant s) ≡ none
  pub get-insert :
      {A : Type 0} (s : Slab A) (a : A) (k : ℕ)
      → get (insert s a) k ≡ (if vacant s == k then some a else get s k)
  pub get-write :
      {A : Type 0} (s : Slab A) (j k : ℕ) (a : A)
      → get (write s j a) k ≡ (if j == k then option_map (λ _. a) (get s j) else get s k)
  pub get-remove :
      {A : Type 0} (s : Slab A) (j k : ℕ) → get (remove s j) k ≡ (if j == k then none else get s k)

module _ ⦃l : Slabs⦄ where
  -- `slab.remove(k)`, which panics at a vacant key.
  unfoldable pub take : {A : Type 0} → l.Slab A → ℕ → Outcome (A × l.Slab A)
  take s k = do a ← expect (l.get s k); ok (a, l.remove s k)

  -- `slab[k] = a`, which panics at a vacant key.
  unfoldable pub assign : {A : Type 0} → l.Slab A → ℕ → A → Outcome (l.Slab A)
  assign s k a = do old ← expect (l.get s k); ok (l.write s k a)
