-- ===== src/Lattice/Updates.antt =====
-- `Lattice::update` as a whole: what it stores, what it forwards, and in which order it may come.
use swindon.Prelude.{
  ℕ, ◌≡◌, refl, ◌==◌, [], ◌∷◌, Option, none, some, arith, if◌then◌else◌, string_eq, unwrap_or,
  option_map, ltb, ◌∙◌, Bool-cases, inl, inr, subst,
}
use swindon.World.{World}
use swindon.Std.HashMap.{HashMap, get, insert, get-insert}
use swindon.Lattice.Crdt.{crdt_entry, counter_update, counter_crdt}
use swindon.Lattice.Merge.{crdt_update_lem, merged}
use swindon.Lattice.State.{
  Values, Rooms, Lattice, Delta, Key, Var, SessionId, room_update, rooms_update, private_loop,
  update,
}
use swindon.Lattice.Rooms.{
  IsDistinctRooms, IsDistinctValues, stored_at, get-rooms_update, rooms_update_again, distinct_at,
}

module _ ⦃w : World⦄ where
  abbrev pub IsDistinctPrivate : HashMap SessionId Rooms → Type 0
  IsDistinctPrivate [] = Unit
  IsDistinctPrivate ((sid, rooms) ∷ m) =
      (get m sid ≡ none) × IsDistinctRooms rooms × IsDistinctPrivate m

  -- Every map of a delta names each key once, as every Rust map does.
  pub record IsDistinctDelta (delta : Delta) : Type 0 where
    pub shared : IsDistinctRooms delta.shared
    pub private : IsDistinctPrivate delta.private

  abbrev rooms_at : ℕ → Option Rooms → Option Rooms → Option Rooms
  rooms_at now mine none = mine
  rooms_at now mine (some rooms) = some (rooms_update now (unwrap_or mine []) rooms).0

  abbrev rest_at : ℕ → Option Rooms → Option Rooms → Option Rooms
  rest_at now mine none = none
  rest_at now mine (some rooms) = some (rooms_update now (unwrap_or mine []) rooms).1

  get-private_loop :
      (now : ℕ) (es mine : HashMap SessionId Rooms) (sid : SessionId)
      → IsDistinctPrivate es
      → (get (private_loop now mine es).0 sid ≡ rooms_at now (get mine sid) (get es sid))
        × (get (private_loop now mine es).1 sid ≡ rest_at now (get mine sid) (get es sid))
  unfolding private_loop get
  get-private_loop now [] mine sid d = (refl, refl)
  get-private_loop now ((j, rooms) ∷ es) mine sid d =
      let x = (rooms_update now (unwrap_or (get mine j) []) rooms).0 in
      let ih = get-private_loop now es (insert mine j x) sid d.2 in
      (
        ground (arith, ih.0, get-insert mine j sid x, string_eq.beq_iff j sid),
        ground (arith, ih.1, get-insert mine j sid x, string_eq.beq_iff j sid),
      )

  private_at :
      (m : HashMap SessionId Rooms) (sid : SessionId) (rooms : Rooms)
      → IsDistinctPrivate m
      → get m sid ≡ some rooms
      → IsDistinctRooms rooms
  unfolding get
  private_at [] sid rooms d e = cc
  private_at ((j, u) ∷ m) sid rooms d e = elim (Bool-cases (j == sid)) [
    | inl h ↦ subst IsDistinctRooms (ground (arith, h, e)) d.1
    | inr h ↦ private_at m sid rooms d.2 (ground (arith, h, e))
  ]

  -- When a delta arrives a second time, at any two times, no shared room is left of it and no room
  -- of any session; what is left of its private part is an empty map for each session that it names,
  -- and nothing for the others. Each of its maps holds each key once.
  pub update_again :
      (now later : ℕ) (lat : Lattice) (delta : Delta) (sid : SessionId)
      → IsDistinctDelta delta
      → let echo = (update later (update now lat delta).0 delta).1 in
        (echo.shared ≡ [])
        × (get echo.private sid ≡ option_map (λ rooms. []) (get delta.private sid))
  unfolding update
  update_again now later lat delta sid d = (
    rooms_update_again now later lat.shared delta.shared d.shared,
    rw
        (
          (get-private_loop later delta.private (private_loop now lat.private delta.private).0 sid
              d.private).1,
          (get-private_loop now delta.private lat.private sid d.private).0,
        )
        (silent (get delta.private sid) refl),
  )
    where
      silent :
          (o : Option Rooms)
          → get delta.private sid ≡ o
          → rest_at later (rooms_at now (get lat.private sid) o) o ≡ option_map (λ rooms. []) o
      silent none e = refl
      silent (some rooms) e =
          rw
            (rooms_update_again now later (unwrap_or (get lat.private sid) []) rooms
              (private_at delta.private sid rooms d.private e))
            refl

  abbrev counter_of : Option Values → Var → Option ℕ
  counter_of none var = none
  counter_of (some v) var = get v.counters var

  -- The value of one counter of one room.
  abbrev pub counter_at : Rooms → Key → Var → Option ℕ
  counter_at rooms room var = counter_of (get rooms room) var

  abbrev pub larger : Option ℕ → Option ℕ → Option ℕ
  larger a none = a
  larger none (some b) = some b
  larger (some a) (some b) = if ltb a b then some b else some a

  merged-larger : (a b : Option ℕ) → merged a b ≡ larger a b
  unfolding crdt_entry counter_update
  merged-larger a none = refl
  merged-larger none (some b) = refl
  merged-larger (some a) (some b) = ground arith

  counter_of-stored_at :
      (now : ℕ) (mine : Option Values) (v : Values) (var : Var)
      → IsDistinctValues v
      → counter_of (stored_at now mine (some v)) var
        ≡ larger (counter_of mine var) (get v.counters var)
  unfolding room_update get
  counter_of-stored_at now none v var d =
      (crdt_update_lem [] v.counters var d.counters).0 ∙ merged-larger none (get v.counters var)
  counter_of-stored_at now (some m) v var d =
      (crdt_update_lem m.counters v.counters var d.counters).0
      ∙ merged-larger (get m.counters var) (get v.counters var)

  -- After an update each shared counter is the larger of the stored and the received value, and
  -- counters that the delta does not name are as before. Each map of the delta holds each key once.
  pub counter_at-update :
      (now : ℕ) (lat : Lattice) (delta : Delta) (room : Key) (var : Var)
      → IsDistinctDelta delta
      → counter_at (update now lat delta).0.shared room var
        ≡ larger (counter_at lat.shared room var) (counter_at delta.shared room var)
  unfolding update
  counter_at-update now lat delta room var d =
      rw ((get-rooms_update now lat.shared delta.shared room d.shared).0)
        (by_delta (get delta.shared room) refl)
    where
      by_delta :
          (o : Option Values)
          → get delta.shared room ≡ o
          → counter_of (stored_at now (get lat.shared room) o) var
            ≡ larger (counter_at lat.shared room var) (counter_of o var)
      by_delta none e = refl
      by_delta (some v) e =
          counter_of-stored_at now (get lat.shared room) v var
            (distinct_at delta.shared room v d.shared e)

  larger_comm : (a b c : Option ℕ) → larger (larger a b) c ≡ larger (larger a c) b
  larger_comm a b c = ground arith

  -- Two updates may come in either order: every shared counter ends at the same value. Each map
  -- of the two deltas holds each key once.
  pub counter_at-update_comm :
      (now later : ℕ) (lat : Lattice) (a b : Delta) (room : Key) (var : Var)
      → IsDistinctDelta a
      → IsDistinctDelta b
      → counter_at (update later (update now lat a).0 b).0.shared room var
        ≡ counter_at (update later (update now lat b).0 a).0.shared room var
  counter_at-update_comm now later lat a b room var da db =
      rw
        (
          counter_at-update later (update now lat a).0 b room var db,
          counter_at-update now lat a room var da,
          counter_at-update later (update now lat b).0 a room var da,
          counter_at-update now lat b room var db,
        )
        (larger_comm (counter_at lat.shared room var) (counter_at a.shared room var)
          (counter_at b.shared room var))
