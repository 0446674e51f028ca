-- ===== src/Std/HashSet.antt =====
-- `std::collections::HashSet` as a list.
use swindon.Prelude.{◌≡◌, Eq, ◌==◌, Bool, true, false, ◌||◌, List, [], ◌∷◌, arith, if◌then◌else◌}

abbrev pub HashSet {ℓ} : Type ℓ → Type ℓ
HashSet A = List A

abbrev pub is_empty {ℓ} : {A : Type ℓ} → HashSet A → Bool
is_empty [] = true
is_empty (x ∷ s) = false

module _ {ℓ} {A : Type ℓ} ⦃e : Eq A⦄ where
  unfoldable pub contains : HashSet A → A → Bool
  contains [] a = false
  contains (x ∷ s) a = (x == a) || contains s a

  unfoldable pub insert : HashSet A → A → HashSet A
  insert s a = if contains s a then s else a ∷ s

  unfoldable pub remove : HashSet A → A → HashSet A
  remove [] a = []
  remove (x ∷ s) a = let rest = remove s a in if x == a then rest else x ∷ rest

  -- `extend`: inserts one by one.
  unfoldable pub extend : HashSet A → List A → HashSet A
  extend s [] = s
  extend s (a ∷ as') = extend (insert s a) as'

  pub contains-insert :
      (s : HashSet A) (a b : A) → contains (insert s a) b ≡ (if a == b then true else contains s b)
  unfolding contains insert
  contains-insert s a b = ground (arith, e.beq_iff a b)

  pub contains-remove :
      (s : HashSet A) (a b : A) → contains (remove s a) b ≡ (if a == b then false else contains s b)
  unfolding contains remove
  contains-remove [] a b = ground arith
  contains-remove (x ∷ s) a b =
      ground (arith, contains-remove s a b, e.beq_iff x a, e.beq_iff x b, e.beq_iff a b)

  pub contains-extend :
      (s : HashSet A) (as' : List A) (b : A)
      → contains (extend s as') b ≡ (contains s b || contains as' b)
  unfolding contains extend
  contains-extend s [] b = ground arith
  contains-extend s (a ∷ as') b =
      ground (arith, contains-extend (insert s a) as' b, contains-insert s a b)
