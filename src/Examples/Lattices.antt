-- ===== src/Examples/Lattices.antt =====
-- lattice.rs, pair.rs and intern.rs on concrete inputs.
use swindon.Prelude.{
  ℕ, ◌≡◌, ◌≢◌, refl, true, false, ◌||◌, ◌&&◌, String, List, [], ◌∷◌, none, some, if◌then◌else◌,
  string_eq, nat_eq, ◌==◌, arith, ◌↔◌,
}
use swindon.Std.HashMap.{HashMap, get, IsDistinct}
use swindon.Std.HashSet
use swindon.Pair.{Pairs, insert_list_key1, remove_list_key1}
use swindon.Pair.Laws.{
  related, related-insert_list_key1, related-remove_list_key1, IsCompact, list_key1-IsCompact,
}
use swindon.Lattice.Crdt.{counter_crdt, crdt_update}
use swindon.Lattice.Laws.{counter_crdt-IsLawful}
use swindon.Lattice.State.{Values, Lattice, Delta, at, new_lattice, update, remove_session}
use swindon.Lattice.Merge.{crdt_update_lem, crdt_update_minimal, crdt_update_again, merged, news}
use swindon.Lattice.Rooms.{IsDistinctValues}
use swindon.Lattice.Updates.{
  IsDistinctDelta, update_again, counter_at, larger, counter_at-update, counter_at-update_comm,
}
use swindon.Lattice.Expiry.{IsSessionBound, update-IsSessionBound}
use swindon.Lattice.Sessions.{subscribed, has_private, remove_session_lem, shared-remove_session}
use swindon.Intern.{valid_var, var_char, codes, valid_topic, valid_sid, valid_topic_iff}
use swindon.Intern.Validators.{
  validate_symbol, validate_symbol-sid, Verdict, session_id, lattice_key, lattice_var,
}
use swindon.Examples.Setting.{paper}

abbrev ann : String
ann = "ann"

abbrev bob : String
bob = "bob"

abbrev eve : String
eve = "eve"

abbrev joe : String
joe = "joe"

abbrev stored : HashMap String ℕ
stored = ("likes", 3) ∷ ("views", 7) ∷ []

abbrev received : HashMap String ℕ
received = ("likes", 5) ∷ ("views", 6) ∷ ("shares", 1) ∷ []

received-IsDistinct : IsDistinct received
unfolding get
received-IsDistinct = (refl, (refl, (refl, tt)))

crdt_update_lem_example :
    let (updated, left) = crdt_update stored received in
    (get updated "views" ≡ merged (get stored "views") (get received "views"))
    × (get left "views" ≡ news (get stored "views") (get received "views"))
crdt_update_lem_example = crdt_update_lem stored received "views" received-IsDistinct

crdt_update_minimal_example :
    let (updated, left) = crdt_update stored received in
    get (crdt_update stored left).0 "likes" ≡ get updated "likes"
crdt_update_minimal_example =
    crdt_update_minimal counter_crdt-IsLawful stored received "likes" received-IsDistinct

crdt_update_again_example :
    let (updated, left) = crdt_update stored received in
    let (twice, echo) = crdt_update updated received in
    (get twice "likes" ≡ get updated "likes") × (get echo "likes" ≡ none)
crdt_update_again_example =
    crdt_update_again counter_crdt-IsLawful stored received "likes" received-IsDistinct

abbrev counted : ℕ → Values
counted n = record { counters = ("likes", n) ∷ []; sets = []; registers = []; expires = at 9 }

abbrev delta_of : ℕ → Delta
delta_of n = record {
  shared = ("room", counted n) ∷ [];
  private = (ann, ("room", counted n) ∷ []) ∷ [];
}

delta_of-IsDistinct : (n : ℕ) → IsDistinctDelta (delta_of n)
unfolding get
delta_of-IsDistinct n = record {
  shared = (refl, distinct, tt);
  private = (refl, (refl, distinct, tt), tt);
}
  where
    distinct : IsDistinctValues (counted n)
    distinct = record { counters = (refl, tt); sets = tt; registers = tt }

update_again_example :
    let echo = (update 8 (update 5 new_lattice (delta_of 3)).0 (delta_of 3)).1 in
    (echo.shared ≡ []) × (get echo.private ann ≡ some [])
unfolding get
update_again_example = update_again 5 8 new_lattice (delta_of 3) ann (delta_of-IsDistinct 3)

counter_at-update_comm_example :
    counter_at (update 8 (update 5 new_lattice (delta_of 3)).0 (delta_of 4)).0.shared "room" "likes"
    ≡ counter_at
        (update 8 (update 5 new_lattice (delta_of 4)).0 (delta_of 3)).0.shared
        "room"
        "likes"
counter_at-update_comm_example =
    counter_at-update_comm 5 8 new_lattice (delta_of 3) (delta_of 4) "room" "likes"
      (delta_of-IsDistinct 3) (delta_of-IsDistinct 4)

counter_at-update_example :
    counter_at (update 5 new_lattice (delta_of 3)).0.shared "room" "likes"
    ≡ larger
        (counter_at new_lattice.shared "room" "likes")
        (counter_at (delta_of 3).shared "room" "likes")
counter_at-update_example =
    counter_at-update 5 new_lattice (delta_of 3) "room" "likes" (delta_of-IsDistinct 3)

update-IsSessionBound_example : IsSessionBound (update 5 new_lattice (delta_of 3)).0
update-IsSessionBound_example =
    update-IsSessionBound 5 new_lattice (delta_of 3) (record { shared = tt; private = tt })

-- `ann` and `bob` follow a room in which both have private values.
abbrev followed : Lattice
followed = record {
  shared = ("room", counted 3) ∷ [];
  private = (ann, ("room", counted 1) ∷ []) ∷ (bob, ("room", counted 2) ∷ []) ∷ [];
  subscriptions = ("room", ann ∷ bob ∷ []) ∷ [];
}

remove_session_lem_example :
    let left = remove_session followed ann in
    (get left.private bob ≡ (if ann == bob then none else get followed.private bob))
    × (subscribed left "room" bob ≡ (
        if has_private followed ann "room" && (ann == bob)
        then false
        else subscribed followed "room" bob))
remove_session_lem_example = remove_session_lem followed ann bob "room"

subscribed-bob : subscribed followed "room" bob ≡ true
unfolding get HashSet.contains
subscribed-bob = refl

ann-bob : ann ≢ bob
ann-bob e = ground (arith, e, string_eq.beq_iff ann bob)

shared-remove_session_example :
    get (remove_session followed ann).shared "room" ≡ get followed.shared "room"
shared-remove_session_example = shared-remove_session followed ann bob "room" subscribed-bob ann-bob

abbrev listeners : Pairs String String
listeners = (ann, bob ∷ []) ∷ (eve, bob ∷ ann ∷ []) ∷ []

related-insert_list_key1_example :
    related (insert_list_key1 listeners (ann ∷ joe ∷ []) eve) joe eve
    ≡ ((HashSet.contains (ann ∷ joe ∷ []) joe && (eve == eve)) || related listeners joe eve)
related-insert_list_key1_example = related-insert_list_key1 listeners (ann ∷ joe ∷ []) eve joe eve

related-remove_list_key1_example :
    related (remove_list_key1 listeners (ann ∷ eve ∷ []) bob) eve ann ≡ (
      if HashSet.contains (ann ∷ eve ∷ []) eve && (bob == ann)
      then false
      else related listeners eve ann)
related-remove_list_key1_example = related-remove_list_key1 listeners (ann ∷ eve ∷ []) bob eve ann

listeners-IsCompact : IsCompact listeners
unfolding get
listeners-IsCompact x e = ground (arith, e)

list_key1-IsCompact_example :
    IsCompact (insert_list_key1 listeners (joe ∷ []) bob)
    × IsCompact (remove_list_key1 listeners (joe ∷ []) bob)
list_key1-IsCompact_example = list_key1-IsCompact listeners (joe ∷ []) bob listeners-IsCompact

room_name : validate_symbol lattice_var (codes "likes") ≡ Verdict.ok
unfolding validate_symbol valid_var var_char
room_name = refl

validate_symbol-sid_example :
    (validate_symbol session_id (codes "likes") ≡ Verdict.ok)
    × (codes "likes" ≢ [] → validate_symbol lattice_key (codes "likes") ≡ Verdict.ok)
validate_symbol-sid_example = validate_symbol-sid lattice_var (codes "likes") room_name

abbrev sid : List ℕ
sid = codes ann

valid_topic_iff_example : (valid_topic sid ≡ true) ↔ ((valid_sid sid ≡ true) × (sid ≢ []))
valid_topic_iff_example = valid_topic_iff sid
