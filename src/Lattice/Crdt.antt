-- ===== src/Lattice/Crdt.antt =====
-- The three CRDTs of lattice.rs, and `crdt_update`, which is generic in the CRDT.
use swindon.Prelude.{
  ℕ, ◌≡◌, Eq, Bool, true, false, String, List, [], ◌∷◌, Option, none, some, ltb, if◌then◌else◌,
  string_eq,
}
use swindon.World.{World}
use swindon.Std.HashMap.{HashMap, get, insert, remove_all}
use swindon.Std.HashSet
use swindon.Std.HashSet.{HashSet}

-- `trait Crdt`: `update` returns the new value and whether it changed.
pub record Crdt (V : Type 0) : Type 0 where
  pub update : V → V → V × Bool

-- A value that was refused is unchanged, and a value that was merged is refused the next time.
pub record IsLawful {V : Type 0} (c : Crdt V) : Type 0 where
  pub unchanged : (a b : V) → (c.update a b).1 ≡ false → (c.update a b).0 ≡ a
  pub settled : (a b : V) → (c.update (c.update a b).0 b).1 ≡ false
  pub reflexive : (a : V) → (c.update a a).1 ≡ false

-- `Counter(u64)`.
unfoldable pub counter_update : ℕ → ℕ → ℕ × Bool
counter_update mine other = if ltb mine other then (other, true) else (mine, false)

instance abbrev pub counter_crdt : Crdt ℕ
counter_crdt = record { update = counter_update }

-- `Set(Arc<HashSet<String>>)`: the loop looks for the first item that is new.
unfoldable pub set_update : HashSet String → List String → HashSet String × Bool
set_update mine [] = (mine, false)
set_update mine (key ∷ iter) =
    let rest = set_update mine iter in
    if HashSet.contains mine key
    then rest
    else (HashSet.extend (HashSet.insert mine key) iter, true)

instance abbrev pub set_crdt : Crdt (HashSet String)
set_crdt = record { update = set_update }

module _ ⦃w : World⦄ where
  -- `Register(f64, Arc<Value>)`.
  pub record Register : Type 0 where
    pub version : w.F64
    pub value : w.Json

  unfoldable pub register_update : Register → Register → Register × Bool
  register_update mine other =
      if w.lt mine.version other.version
      then (record { version = other.version; value = other.value }, true)
      else (mine, false)

  instance abbrev pub register_crdt : Crdt Register
  register_crdt = record { update = register_update }

-- One round of the loop: what becomes of an entry, and whether its key stays in the delta.
unfoldable pub crdt_entry : {V : Type 0} ⦃c : Crdt V⦄ → Option V → V → V × Bool
crdt_entry none crdt = (crdt, true)
crdt_entry ⦃c⦄ (some mine) crdt = c.update mine crdt

module _ {K V : Type 0} ⦃e : Eq K⦄ ⦃c : Crdt V⦄ where
  unfoldable pub crdt_loop : HashMap K V → List K → HashMap K V → HashMap K V × List K
  unfolding crdt_entry
  crdt_loop original del [] = (original, del)
  crdt_loop original del ((key, crdt) ∷ iter) =
      let (value, changed) = crdt_entry (get original key) crdt in
      crdt_loop (insert original key value) (if changed then del else key ∷ del) iter

  -- The updated map, and the delta less what changed nothing.
  unfoldable pub crdt_update : HashMap K V → HashMap K V → HashMap K V × HashMap K V
  unfolding crdt_loop
  crdt_update original delta =
      let (updated, del) = crdt_loop original [] delta in (updated, remove_all delta del)
