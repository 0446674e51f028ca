-- ===== src/Std/HashMap.antt =====
-- `std::collections::HashMap` as an association list. The order of iteration, which Rust leaves
-- open, is the order of the list.
use swindon.Prelude.{
  ◌≡◌, refl, Eq, ◌==◌, Bool, true, false, List, [], ◌∷◌, Option, none, some, arith, is_some,
  option_map, unwrap_or, if◌then◌else◌, length, suc,
}
use swindon.Std.HashSet

abbrev pub HashMap {ℓ κ} : Type ℓ → Type κ → Type (ℓ ⊔ κ)
HashMap K V = List (K × V)

module _ {ℓ κ} {K : Type ℓ} {V : Type κ} where
  abbrev pub keys : HashMap K V → List K
  keys [] = []
  keys ((k, v) ∷ m) = k ∷ keys m

  abbrev pub is_empty : HashMap K V → Bool
  is_empty [] = true
  is_empty (e ∷ m) = false

module _ {ℓ κ} {K : Type ℓ} {V : Type κ} ⦃e : Eq K⦄ where
  unfoldable pub get : HashMap K V → K → Option V
  get [] k = none
  get ((j, v) ∷ m) k = if j == k then some v else get m k

  unfoldable pub insert : HashMap K V → K → V → HashMap K V
  insert [] k v = (k, v) ∷ []
  insert ((j, w) ∷ m) k v = if j == k then (k, v) ∷ m else (j, w) ∷ insert m k v

  unfoldable pub remove : HashMap K V → K → HashMap K V
  remove [] k = []
  remove ((j, w) ∷ m) k = let rest = remove m k in if j == k then rest else (j, w) ∷ rest

  -- A write through `get_mut`.
  unfoldable pub adjust : HashMap K V → K → (V → V) → HashMap K V
  adjust [] k f = []
  adjust ((j, w) ∷ m) k f = if j == k then (j, f w) ∷ m else (j, w) ∷ adjust m k f

  abbrev pub contains_key : HashMap K V → K → Bool
  contains_key m k = is_some (get m k)

  -- `f` applied to `entry(k).or_insert(d)`.
  unfoldable pub upsert : HashMap K V → K → V → (V → V) → HashMap K V
  upsert m k d f = insert m k (f (unwrap_or (get m k) d))

  -- Removes the keys of a list, one by one.
  unfoldable pub remove_all : HashMap K V → List K → HashMap K V
  remove_all m [] = m
  remove_all m (k ∷ ks) = remove_all (remove m k) ks

  -- Every key stands once, as in every Rust map.
  abbrev pub IsDistinct : HashMap K V → Type κ
  IsDistinct [] = Unit
  IsDistinct ((k, v) ∷ m) = (get m k ≡ none) × IsDistinct m

  pub get-insert :
      (m : HashMap K V) (k j : K) (v : V)
      → get (insert m k v) j ≡ (if k == j then some v else get m j)
  unfolding get insert
  get-insert [] k j v = refl
  get-insert ((i, w) ∷ m) k j v =
      ground (arith, get-insert m k j v, e.beq_iff i k, e.beq_iff i j, e.beq_iff k j)

  pub get-remove :
      (m : HashMap K V) (k j : K) → get (remove m k) j ≡ (if k == j then none else get m j)
  unfolding get remove
  get-remove [] k j = ground arith
  get-remove ((i, w) ∷ m) k j =
      ground (arith, get-remove m k j, e.beq_iff i k, e.beq_iff i j, e.beq_iff k j)

  pub get-adjust :
      (m : HashMap K V) (k j : K) (f : V → V)
      → get (adjust m k f) j ≡ (if k == j then option_map f (get m j) else get m j)
  unfolding get adjust
  get-adjust [] k j f = ground arith
  get-adjust ((i, w) ∷ m) k j f =
      ground (arith, get-adjust m k j f, e.beq_iff i k, e.beq_iff i j, e.beq_iff k j)

  pub get-upsert :
      (m : HashMap K V) (k j : K) (d : V) (f : V → V)
      → get (upsert m k d f) j ≡ (if k == j then some (f (unwrap_or (get m k) d)) else get m j)
  unfolding upsert
  get-upsert m k j d f = get-insert m k j (f (unwrap_or (get m k) d))

  pub get-remove_all :
      (m : HashMap K V) (ks : List K) (j : K)
      → get (remove_all m ks) j ≡ (if HashSet.contains ks j then none else get m j)
  unfolding remove_all HashSet.contains
  get-remove_all m [] j = refl
  get-remove_all m (k ∷ ks) j =
      ground
        (arith, get-remove_all (remove m k) ks j, get-remove m k j, e.beq_iff k j, e.beq_iff j k)

  pub remove-IsDistinct : (m : HashMap K V) (k : K) → IsDistinct m → IsDistinct (remove m k)
  unfolding remove
  remove-IsDistinct [] k d = tt
  remove-IsDistinct ((j, v) ∷ m) k d = ground (arith, remove-IsDistinct m k d.1, get-remove m k j)

  pub insert-IsDistinct :
      (m : HashMap K V) (k : K) (v : V) → IsDistinct m → IsDistinct (insert m k v)
  unfolding insert get
  insert-IsDistinct [] k v d = (refl, tt)
  insert-IsDistinct ((j, w) ∷ m) k v d =
      ground (arith, insert-IsDistinct m k v d.1, get-insert m k j v, e.beq_iff j k, e.beq_iff k j)

  pub adjust-IsDistinct :
      (m : HashMap K V) (k : K) (f : V → V) → IsDistinct m → IsDistinct (adjust m k f)
  unfolding get adjust
  adjust-IsDistinct [] k f d = tt
  adjust-IsDistinct ((j, w) ∷ m) k f d =
      ground (arith, d, adjust-IsDistinct m k f d.1, get-adjust m k j f)

  remove-absent : (m : HashMap K V) (k : K) → get m k ≡ none → remove m k ≡ m
  unfolding get remove
  remove-absent [] k n = refl
  remove-absent ((j, v) ∷ m) k n = ground (arith, n, remove-absent m k)

  pub length-remove :
      (m : HashMap K V) (k : K) (v : V)
      → IsDistinct m
      → get m k ≡ some v
      → suc (length (remove m k)) ≡ length m
  unfolding get remove
  length-remove [] k v d n = ground (arith, n)
  length-remove ((j, w) ∷ m) k v d n =
      ground (arith, n, d.0, length-remove m k v d.1, remove-absent m k, e.beq_iff j k)

  pub remove_all-IsDistinct :
      (m : HashMap K V) (ks : List K) → IsDistinct m → IsDistinct (remove_all m ks)
  unfolding remove_all
  remove_all-IsDistinct m [] d = d
  remove_all-IsDistinct m (k ∷ ks) d =
      remove_all-IsDistinct (remove m k) ks (remove-IsDistinct m k d)
