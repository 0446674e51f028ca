-- ===== src/Examples/Slots.antt =====
-- A list of slots has the interface of the crate slab.
use swindon.Prelude.{
  ℕ, zero, suc, ◌≡◌, refl, List, [], ◌∷◌, Option, none, some, arith, ◌==◌, nat_eq, if◌then◌else◌,
  option_map,
}
use swindon.Heap.Slab.{Slabs}

module _ {A : Type 0} where
  abbrev pub get : List (Option A) → ℕ → Option A
  get [] k = none
  get (x ∷ s) zero = x
  get (x ∷ s) (suc k) = get s k

  -- The first slot that is free.
  abbrev pub vacant : List (Option A) → ℕ
  vacant [] = 0
  vacant (none ∷ s) = 0
  vacant (some a ∷ s) = suc (vacant s)

  abbrev pub insert : List (Option A) → A → List (Option A)
  insert [] a = some a ∷ []
  insert (none ∷ s) a = some a ∷ s
  insert (some b ∷ s) a = some b ∷ insert s a

  abbrev pub write : List (Option A) → ℕ → A → List (Option A)
  write [] k a = []
  write (x ∷ s) zero a = option_map (λ _. a) x ∷ s
  write (x ∷ s) (suc k) a = x ∷ write s k a

  abbrev pub remove : List (Option A) → ℕ → List (Option A)
  remove [] k = []
  remove (x ∷ s) zero = none ∷ s
  remove (x ∷ s) (suc k) = x ∷ remove s k

  pub get-vacant : (s : List (Option A)) → get s (vacant s) ≡ none
  get-vacant [] = refl
  get-vacant (none ∷ s) = refl
  get-vacant (some a ∷ s) = get-vacant s

  pub get-insert :
      (s : List (Option A)) (a : A) (k : ℕ)
      → get (insert s a) k ≡ (if vacant s == k then some a else get s k)
  get-insert [] a zero = ground arith
  get-insert [] a (suc k) = ground arith
  get-insert (none ∷ s) a zero = ground arith
  get-insert (none ∷ s) a (suc k) = ground arith
  get-insert (some b ∷ s) a zero = ground arith
  get-insert (some b ∷ s) a (suc k) = ground (arith, get-insert s a k)

  pub get-write :
      (s : List (Option A)) (j k : ℕ) (a : A)
      → get (write s j a) k ≡ (if j == k then option_map (λ _. a) (get s j) else get s k)
  get-write [] j k a = ground arith
  get-write (x ∷ s) zero zero a = ground arith
  get-write (x ∷ s) zero (suc k) a = ground arith
  get-write (x ∷ s) (suc j) zero a = ground arith
  get-write (x ∷ s) (suc j) (suc k) a = ground (arith, get-write s j k a)

  pub get-remove :
      (s : List (Option A)) (j k : ℕ) → get (remove s j) k ≡ (if j == k then none else get s k)
  get-remove [] j k = ground arith
  get-remove (x ∷ s) zero zero = ground arith
  get-remove (x ∷ s) zero (suc k) = ground arith
  get-remove (x ∷ s) (suc j) zero = ground arith
  get-remove (x ∷ s) (suc j) (suc k) = ground (arith, get-remove s j k)

instance abbrev pub slots : Slabs
slots = record {
  Slab = λ A. List (Option A);
  new = [];
  get = get;
  vacant = vacant;
  insert = insert;
  write = write;
  remove = remove;
  get-new = λ k. refl;
  get-vacant = get-vacant;
  get-insert = get-insert;
  get-write = get-write;
  get-remove = get-remove;
}
