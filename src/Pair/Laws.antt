-- ===== src/Pair/Laws.antt =====
-- The relation that the `Pairs` of chat/processor/pair.rs stand for.
use swindon.Prelude.{
  ◌≡◌, ◌≢◌, refl, Eq, ◌==◌, Bool, false, ◌&&◌, ◌||◌, List, [], ◌∷◌, some, arith, if◌then◌else◌,
  unwrap_or, Option-cases, inl, inr,
}
use swindon.Std.HashMap.{get, get-insert, get-remove, get-upsert}
use swindon.Std.HashSet
use swindon.Std.HashSet.{HashSet, contains, contains-insert, contains-remove}
use swindon.Pair.{Pairs, insert_clone, insert_list_key1, remove, remove_list_key1}

module _ {A B : Type 0} ⦃a : Eq A⦄ ⦃b : Eq B⦄ where
  abbrev pub related : Pairs A B → A → B → Bool
  related m x y = contains (unwrap_or (get m x) []) y

  related-insert_clone :
      (m : Pairs A B) (key1 : A) (key2 : B) (x : A) (y : B)
      → related (insert_clone m key1 key2) x y ≡ (((key1 == x) && (key2 == y)) || related m x y)
  unfolding insert_clone contains
  related-insert_clone m key1 key2 x y = ground (
    arith,
    get-upsert m key1 x [] (λ s. HashSet.insert s key2),
    contains-insert (unwrap_or (get m key1) []) key2 y,
    a.beq_iff key1 x,
  )

  related-remove :
      (m : Pairs A B) (key1 : A) (key2 : B) (x : A) (y : B)
      → related (remove m key1 key2) x y
        ≡ (if (key1 == x) && (key2 == y) then false else related m x y)
  unfolding remove contains
  related-remove m key1 key2 x y = elim (Option-cases (get m key1)) [
    | inl e ↦ ground (arith, e, a.beq_iff key1 x)
    | inr (s, e) ↦
        let left = HashSet.remove s key2 in
        ground (
          arith,
          e,
          a.beq_iff key1 x,
          contains-remove s key2 y,
          get-insert m key1 x left,
          get-remove m key1 x,
        )
  ]

  -- `insert_list_key1` relates every listed key to `key2` and changes no other pair.
  pub related-insert_list_key1 :
      (m : Pairs A B) (list : List A) (key2 : B) (x : A) (y : B)
      → related (insert_list_key1 m list key2) x y
        ≡ ((contains list x && (key2 == y)) || related m x y)
  unfolding insert_list_key1 contains
  related-insert_list_key1 m [] key2 x y = refl
  related-insert_list_key1 m (k ∷ list) key2 x y = ground (
    arith,
    related-insert_list_key1 (insert_clone m k key2) list key2 x y,
    related-insert_clone m k key2 x y,
  )

  -- `remove_list_key1` takes `key2` from every listed key and changes no other pair.
  pub related-remove_list_key1 :
      (m : Pairs A B) (list : List A) (key2 : B) (x : A) (y : B)
      → related (remove_list_key1 m list key2) x y
        ≡ (if contains list x && (key2 == y) then false else related m x y)
  unfolding remove_list_key1 contains
  related-remove_list_key1 m [] key2 x y = refl
  related-remove_list_key1 m (k ∷ list) key2 x y =
      ground (
        arith,
        related-remove_list_key1 (remove m k key2) list key2 x y,
        related-remove m k key2 x y,
      )

  -- No key is kept for an empty set.
  abbrev pub IsCompact : Pairs A B → Type 0
  IsCompact m = (x : A) → get m x ≢ some []

  remove-IsCompact :
      (m : Pairs A B) (key1 : A) (key2 : B) → IsCompact m → IsCompact (remove m key1 key2)
  unfolding remove
  remove-IsCompact m key1 key2 h x = elim (Option-cases (get m key1)) [
    | inl e ↦ ground (arith, e, h x)
    | inr (s, e) ↦
        let left = HashSet.remove s key2 in
        ground (arith, e, h x, get-insert m key1 x left, get-remove m key1 x)
  ]

  insert_clone-IsCompact :
      (m : Pairs A B) (key1 : A) (key2 : B) → IsCompact m → IsCompact (insert_clone m key1 key2)
  unfolding insert_clone HashSet.insert contains
  insert_clone-IsCompact m key1 key2 h x =
      ground (arith, h x, get-upsert m key1 x [] (λ s. HashSet.insert s key2))

  -- Neither list operation leaves a key with an empty set.
  pub list_key1-IsCompact :
      (m : Pairs A B) (list : List A) (key2 : B)
      → IsCompact m
      → IsCompact (insert_list_key1 m list key2) × IsCompact (remove_list_key1 m list key2)
  unfolding insert_list_key1 remove_list_key1
  list_key1-IsCompact m [] key2 h = (h, h)
  list_key1-IsCompact m (k ∷ list) key2 h = (
    (list_key1-IsCompact (insert_clone m k key2) list key2 (insert_clone-IsCompact m k key2 h)).0,
    (list_key1-IsCompact (remove m k key2) list key2 (remove-IsCompact m k key2 h)).1,
  )
