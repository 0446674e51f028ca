-- ===== src/Lattice/Rooms.antt =====
-- The loops of `Lattice::update` over rooms and sessions, seen through `get`.
use swindon.Prelude.{
  ℕ, ◌≡◌, refl, ◌==◌, Bool, true, false, String, [], ◌∷◌, Option, none, some, arith, if◌then◌else◌,
  string_eq, unwrap_or, beq_refl, Bool-cases, inl, inr, subst,
}
use swindon.World.{World}
use swindon.Std.HashMap.{HashMap, get, insert, get-insert, IsDistinct}
use swindon.Std.HashSet.{contains}
use swindon.Lattice.Crdt.{counter_crdt, set_crdt, register_crdt}
use swindon.Lattice.Merge.{crdt_update_again, get-remove_all}
use swindon.Lattice.Laws.{counter_crdt-IsLawful, set_crdt-IsLawful, register_crdt-IsLawful}
use swindon.Lattice.State.{
  Values, Rooms, Key, new_values, is_empty_values, room_update, rooms_loop, rooms_update,
}

-- A map in which no key is found is the empty map.
none-nil : {V : Type 0} (m : HashMap String V) → ((k : String) → get m k ≡ none) → m ≡ []
unfolding get
none-nil [] h = refl
none-nil ((k, v) ∷ m) h = ground (arith, h k, beq_refl k)

module _ ⦃w : World⦄ where
  -- Each name stands once in each of the three maps.
  pub record IsDistinctValues (v : Values) : Type 0 where
    pub counters : IsDistinct v.counters
    pub sets : IsDistinct v.sets
    pub registers : IsDistinct v.registers

  abbrev pub IsDistinctRooms : Rooms → Type 0
  IsDistinctRooms [] = Unit
  IsDistinctRooms ((room, v) ∷ rooms) =
      (get rooms room ≡ none) × IsDistinctValues v × IsDistinctRooms rooms

  -- What the store and the delta hold of one room after `rooms_update`.
  abbrev pub stored_at : ℕ → Option Values → Option Values → Option Values
  stored_at now mine none = mine
  stored_at now mine (some v) = some (room_update now (unwrap_or mine new_values) v).0

  abbrev pub left_at : ℕ → Option Values → Option Values → Option Values
  left_at now mine none = none
  left_at now mine (some v) =
      let left = (room_update now (unwrap_or mine new_values) v).1 in
      if is_empty_values left then none else some left

  abbrev remains : ℕ → Option Values → Option Values → Option Values
  remains now mine none = none
  remains now mine (some v) = some (room_update now (unwrap_or mine new_values) v).1

  abbrev is_spent : Option Values → Bool
  is_spent none = false
  is_spent (some left) = is_empty_values left

  get-rooms_loop :
      (now : ℕ) (es mine : Rooms) (r : Key)
      → IsDistinctRooms es
      → get (rooms_loop now mine es).0 r ≡ stored_at now (get mine r) (get es r)
  unfolding rooms_loop get
  get-rooms_loop now [] mine r d = refl
  get-rooms_loop now ((j, v) ∷ es) mine r d =
      let x = (room_update now (unwrap_or (get mine j) new_values) v).0 in
      ground (
        arith,
        get-rooms_loop now es (insert mine j x) r d.2,
        get-insert mine j r x,
        string_eq.beq_iff j r,
      )

  get-rooms_loop_left :
      (now : ℕ) (es mine : Rooms) (r : Key)
      → IsDistinctRooms es
      → get (rooms_loop now mine es).1 r ≡ remains now (get mine r) (get es r)
  unfolding rooms_loop get
  get-rooms_loop_left now [] mine r d = refl
  get-rooms_loop_left now ((j, v) ∷ es) mine r d =
      let x = (room_update now (unwrap_or (get mine j) new_values) v).0 in
      ground (
        arith,
        get-rooms_loop_left now es (insert mine j x) r d.2,
        get-insert mine j r x,
        string_eq.beq_iff j r,
      )

  contains-rooms_loop :
      (now : ℕ) (es mine : Rooms) (r : Key)
      → IsDistinctRooms es
      → contains (rooms_loop now mine es).2 r ≡ is_spent (remains now (get mine r) (get es r))
  unfolding rooms_loop get contains
  contains-rooms_loop now [] mine r d = refl
  contains-rooms_loop now ((j, v) ∷ es) mine r d =
      let (x, left) = room_update now (unwrap_or (get mine j) new_values) v in
      ground (
        arith,
        contains-rooms_loop now es (insert mine j x) r d.2,
        get-insert mine j r x,
        string_eq.beq_iff j r,
      )

  pub get-rooms_update :
      (now : ℕ) (mine delta : Rooms) (r : Key)
      → IsDistinctRooms delta
      → (get (rooms_update now mine delta).0 r ≡ stored_at now (get mine r) (get delta r))
        × (get (rooms_update now mine delta).1 r ≡ left_at now (get mine r) (get delta r))
  unfolding rooms_update
  get-rooms_update now mine delta r d =
      let (_, left, del) = rooms_loop now mine delta in
      (
        get-rooms_loop now delta mine r d,
        ground (
          arith,
          get-remove_all left del r,
          get-rooms_loop_left now delta mine r d,
          contains-rooms_loop now delta mine r d,
        ),
      )

  pub distinct_at :
      (rooms : Rooms) (r : Key) (v : Values)
      → IsDistinctRooms rooms
      → get rooms r ≡ some v
      → IsDistinctValues v
  unfolding get
  distinct_at [] r v d e = cc
  distinct_at ((j, u) ∷ rooms) r v d e = elim (Bool-cases (j == r)) [
    | inl h ↦ subst IsDistinctValues (ground (arith, h, e)) d.1
    | inr h ↦ distinct_at rooms r v d.2 (ground (arith, h, e))
  ]

  -- Nothing of a room is left when it arrives again.
  room_update_again :
      (now later : ℕ) (mine v : Values)
      → IsDistinctValues v
      → is_empty_values (room_update later (room_update now mine v).0 v).1 ≡ true
  unfolding room_update
  room_update_again now later mine v d =
      let c =
        none-nil _ (λ k.
          (crdt_update_again counter_crdt-IsLawful mine.counters v.counters k d.counters).1) in
      let s = none-nil _ (λ k. (crdt_update_again set_crdt-IsLawful mine.sets v.sets k d.sets).1) in
      let r = none-nil _ (λ k.
        (crdt_update_again register_crdt-IsLawful mine.registers v.registers k d.registers).1) in
      ground (arith, c, s, r)

  -- A delta of rooms that arrives again leaves nothing to forward.
  pub rooms_update_again :
      (now later : ℕ) (mine delta : Rooms)
      → IsDistinctRooms delta
      → (rooms_update later (rooms_update now mine delta).0 delta).1 ≡ []
  rooms_update_again now later mine delta d = none-nil _ λ r.
      rw
        (
          (get-rooms_update later (rooms_update now mine delta).0 delta r d).1,
          (get-rooms_update now mine delta r d).0,
        )
        (spent r (get delta r) refl)
    where
      spent :
          (r : Key) (o : Option Values)
          → get delta r ≡ o
          → left_at later (stored_at now (get mine r) o) o ≡ none
      spent r none e = refl
      spent r (some v) e = rw (
          room_update_again now later (unwrap_or (get mine r) new_values) v
            (distinct_at delta r v d e))
