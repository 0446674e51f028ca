-- ===== src/Heap/Items.antt =====
-- The vector of a heap, under native indices.
use swindon.Prelude.{
  ℕ, zero, suc, ◌≡◌, refl, ap, List, [], ◌∷◌, ◌++◌, Option, none, some, arith, length, ◌==◌, nat_eq,
  if◌then◌else◌, option_map, is_some, ltb,
}

module _ {ℓ} {A : Type ℓ} where
  abbrev pub nth : List A → ℕ → Option A
  nth [] k = none
  nth (x ∷ xs) zero = some x
  nth (x ∷ xs) (suc k) = nth xs k

  abbrev pub store : List A → ℕ → A → List A
  store [] k v = []
  store (x ∷ xs) zero v = v ∷ xs
  store (x ∷ xs) (suc k) v = x ∷ store xs k v

  -- All but the last one.
  abbrev pub init : List A → List A
  init [] = []
  init (x ∷ []) = []
  init (x ∷ y ∷ xs) = x ∷ init (y ∷ xs)

  pub nth-store :
      (xs : List A) (k j : ℕ) (v : A)
      → nth (store xs k v) j ≡ (if k == j then option_map (λ _. v) (nth xs k) else nth xs j)
  nth-store [] k j v = ground arith
  nth-store (x ∷ xs) zero zero v = ground arith
  nth-store (x ∷ xs) zero (suc j) v = ground arith
  nth-store (x ∷ xs) (suc k) zero v = ground arith
  nth-store (x ∷ xs) (suc k) (suc j) v = ground (arith, nth-store xs k j v)

  pub length-store : (xs : List A) (k : ℕ) (v : A) → length (store xs k v) ≡ length xs
  length-store [] k v = ground arith
  length-store (x ∷ xs) zero v = ground arith
  length-store (x ∷ xs) (suc k) v = ground (arith, length-store xs k v)

  pub is_some-nth : (xs : List A) (k : ℕ) → is_some (nth xs k) ≡ ltb k (length xs)
  is_some-nth [] k = ground arith
  is_some-nth (x ∷ xs) zero = ground arith
  is_some-nth (x ∷ xs) (suc k) = ground (arith, is_some-nth xs k)

  pub nth-push :
      (xs : List A) (v : A) (k : ℕ)
      → nth (xs ++ v ∷ []) k ≡ (if length xs == k then some v else nth xs k)
  nth-push [] v zero = ground arith
  nth-push [] v (suc k) = ground arith
  nth-push (x ∷ xs) v zero = ground arith
  nth-push (x ∷ xs) v (suc k) = ground (arith, nth-push xs v k)

  pub length-init : (x : A) (xs : List A) → length (init (x ∷ xs)) ≡ length xs
  length-init x [] = refl
  length-init x (y ∷ xs) = ap suc (length-init y xs)

  pub nth-init :
      (xs : List A) (k : ℕ) → nth (init xs) k ≡ (if ltb (suc k) (length xs) then nth xs k else none)
  nth-init [] k = ground arith
  nth-init (x ∷ []) k = ground arith
  nth-init (x ∷ y ∷ xs) zero = ground arith
  nth-init (x ∷ y ∷ xs) (suc k) = ground (arith, nth-init (y ∷ xs) k)
