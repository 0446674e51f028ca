-- ===== src/Pair.antt =====
-- chat/processor/pair.rs: a relation kept as `HashMap<A, HashSet<B>>`.
pub mod Laws
use swindon.Prelude.{Eq, Bool, true, false, List, [], ◌∷◌, Option, none, some, if◌then◌else◌}
use swindon.Std.HashMap
use swindon.Std.HashMap.{HashMap, get, upsert}
use swindon.Std.HashSet
use swindon.Std.HashSet.{HashSet}

abbrev pub Pairs : Type 0 → Type 0 → Type 0
Pairs A B = HashMap A (HashSet B)

module _ {A B : Type 0} ⦃a : Eq A⦄ ⦃b : Eq B⦄ where
  unfoldable pub insert_clone : Pairs A B → A → B → Pairs A B
  insert_clone m key1 key2 = upsert m key1 [] (λ s. HashSet.insert s key2)

  unfoldable pub insert_list_key1 : Pairs A B → List A → B → Pairs A B
  unfolding insert_clone
  insert_list_key1 m [] key2 = m
  insert_list_key1 m (key1 ∷ key1list) key2 =
      insert_list_key1 (insert_clone m key1 key2) key1list key2

  -- `len == 0` is tested after the write through `get_mut`.
  unfoldable pub remove : Pairs A B → A → B → Pairs A B
  remove m key1 key2 = elim (get m key1) [
    | none ↦ m
    | some sub ↦
        let left = HashSet.remove sub key2 in
        if HashSet.is_empty left then HashMap.remove m key1 else HashMap.insert m key1 left
  ]

  unfoldable pub remove_list_key1 : Pairs A B → List A → B → Pairs A B
  unfolding remove
  remove_list_key1 m [] key2 = m
  remove_list_key1 m (key1 ∷ key1list) key2 = remove_list_key1 (remove m key1 key2) key1list key2
