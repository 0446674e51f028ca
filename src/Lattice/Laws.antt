-- ===== src/Lattice/Laws.antt =====
-- The three CRDTs of chat/processor/lattice.rs one by one.
use swindon.Prelude.{
  ◌≡◌, refl, true, false, ◌||◌, String, List, [], ◌∷◌, arith, beq_refl, ap, string_eq,
}
use swindon.World.{World}
use swindon.Std.HashSet.{HashSet, contains, insert, contains-insert, contains-extend}
use swindon.Lattice.Crdt.{
  IsLawful, counter_update, counter_crdt, set_update, set_crdt, register_update, register_crdt,
}

pub counter_crdt-IsLawful : IsLawful counter_crdt
unfolding counter_update
counter_crdt-IsLawful = record {
  unchanged = λ a b. ground arith;
  settled = λ a b. ground arith;
  reflexive = λ a. ground arith;
}

module _ ⦃w : World⦄ where
  pub register_crdt-IsLawful : IsLawful register_crdt
  unfolding register_update
  register_crdt-IsLawful = record {
    unchanged = λ a b. ground arith;
    settled = λ a b. ground (arith, w.lt_irrefl b.version);
    reflexive = λ a. ground (arith, w.lt_irrefl a.version);
  }

-- A set holds what either side held.
pub contains-set_update :
    (a : HashSet String) (b : List String) (x : String)
    → contains (set_update a b).0 x ≡ (contains a x || contains b x)
unfolding set_update contains
contains-set_update a [] x = ground arith
contains-set_update a (y ∷ b) x = ground (
  arith,
  contains-set_update a b x,
  contains-extend (insert a y) b x,
  contains-insert a y x,
  string_eq.beq_iff y x,
)

-- The flag is down exactly when nothing is new.
set_update_included :
    (a : HashSet String) (b : List String)
    → ((x : String) → contains b x ≡ true → contains a x ≡ true)
    → set_update a b ≡ (a, false)
unfolding set_update contains
set_update_included a [] h = refl
set_update_included a (y ∷ b) h =
    let rest = set_update_included a b (λ x m. h x (ground (arith, m))) in
    ground (arith, h y, beq_refl y, rest)

set_update_flag :
    (a : HashSet String) (b : List String) → (set_update a b).1 ≡ false → (set_update a b).0 ≡ a
unfolding set_update
set_update_flag a [] h = refl
set_update_flag a (y ∷ b) h = ground (arith, set_update_flag a b)

pub set_crdt-IsLawful : IsLawful set_crdt
set_crdt-IsLawful = record {
  unchanged = set_update_flag;
  settled = λ a b.
      ap (λ p. p.1) (set_update_included _ b (λ x h. ground (arith, contains-set_update a b x, h)));
  reflexive = λ a. ap (λ p. p.1) (set_update_included a a (λ x h. h));
}
