-- ===== src/Pool/Expiry.antt =====
-- `lattice_cleanup` of chat/processor/pool.rs: which private values it deletes.
use swindon.Prelude.{
  ℕ, ◌+◌, ◌≡◌, refl, Bool, true, false, [], ◌∷◌, Option, none, some, arith, string_eq, Option-cases,
  Bool-cases, inl, inr, is_some, unwrap_or, ltb, leb, ◌||◌, if◌then◌else◌,
}
use swindon.World.{World}
use swindon.Timers.{Timers}
use swindon.Std.HashMap
use swindon.Std.HashMap.{HashMap, get}
use swindon.Lattice.State.{
  Key, SessionId, Values, Rooms, Lattice, Expires, with_session, at, if_unused,
}
use swindon.Lattice.Rooms.{IsDistinctRooms}
use swindon.Lattice.Updates.{IsDistinctPrivate}
use swindon.Pool.Types.{Namespace, Session, Pool}
use swindon.Pool.Output.{session_get}
use swindon.Pool.Activity.{
  expire_values, clean_rooms, clean_private, clean_lattices, lattice_cleanup,
  lattice_cleanup_interval,
}

module _ ⦃w : World⦄ ⦃h : Timers Session⦄ where
  -- A value lives as long as its session, until a time, or as long as either.
  abbrev pub is_live : Bool → ℕ → Expires → Bool
  is_live has_session timestamp with_session = has_session
  is_live has_session timestamp (at x) = leb timestamp x
  is_live has_session timestamp (if_unused x) = has_session || leb timestamp x

  -- A value whose own time has passed lives on with its session.
  abbrev pub renewed : ℕ → Expires → Expires
  renewed timestamp with_session = with_session
  renewed timestamp (at x) = at x
  renewed timestamp (if_unused x) = if leb timestamp x then if_unused x else with_session

  -- What is left of a value.
  abbrev pub kept : Bool → ℕ → Option Values → Option Values
  kept has_session timestamp none = none
  kept has_session timestamp (some values) =
      if is_live has_session timestamp values.expires
      then some (record values { expires = renewed timestamp values.expires })
      else none

  expire_values-kept :
      (has_session : Bool) (timestamp : ℕ) (expires : Expires)
      → expire_values has_session timestamp expires
        ≡ (if is_live has_session timestamp expires then some (renewed timestamp expires) else none)
  unfolding expire_values
  expire_values-kept b ts with_session = ground arith
  expire_values-kept b ts (at x) = ground arith
  expire_values-kept b ts (if_unused x) = ground arith

  get-clean_rooms :
      (has_session : Bool) (timestamp : ℕ) (rooms : Rooms) (key : Key)
      → IsDistinctRooms rooms
      → get (clean_rooms has_session timestamp rooms) key
        ≡ kept has_session timestamp (get rooms key)
  unfolding clean_rooms get
  get-clean_rooms b ts [] key d = refl
  get-clean_rooms b ts ((j, values) ∷ rooms) key d =
      let ih = get-clean_rooms b ts rooms key d.2 in
      elim (Option-cases (expire_values b ts values.expires)) [
        | inl e ↦
            ground
              (arith, e, d.0, ih, string_eq.beq_iff j key, expire_values-kept b ts values.expires)
        | inr (expires, e) ↦
            ground
              (arith, e, d.0, ih, string_eq.beq_iff j key, expire_values-kept b ts values.expires)
      ]

  abbrev pub private_value : HashMap SessionId Rooms → SessionId → Key → Option Values
  private_value private sid key = get (unwrap_or (get private sid) []) key

  is_empty-get : (rooms : Rooms) (key : Key) → HashMap.is_empty rooms ≡ true → get rooms key ≡ none
  unfolding get
  is_empty-get [] key e = refl
  is_empty-get (r ∷ rooms) key e = cc

  get-clean_private :
      (p : Pool) (timestamp : ℕ) (private : HashMap SessionId Rooms) (sid : SessionId) (key : Key)
      → IsDistinctPrivate private
      → private_value (clean_private p timestamp private) sid key
        ≡ kept (is_some (session_get p sid)) timestamp (private_value private sid key)
  unfolding clean_private get
  get-clean_private p ts [] sid key d = refl
  get-clean_private p ts ((j, rooms) ∷ private) sid key d =
      let b = is_some (session_get p j) in
      let left = clean_rooms b ts rooms in
      let ih = get-clean_private p ts private sid key d.2 in
      let at = get-clean_rooms b ts rooms key d.1 in
      elim (Bool-cases (HashMap.is_empty left)) [
        | inl e ↦ ground (arith, e, d.0, ih, at, is_empty-get left key e, string_eq.beq_iff j sid)
        | inr e ↦ ground (arith, e, d.0, ih, at, string_eq.beq_iff j sid)
      ]

  abbrev pub stored_value : Pool → Namespace → SessionId → Key → Option Values
  stored_value p ns sid key = elim (get p.lattices ns) [
    | none ↦ none
    | some lat ↦ private_value lat.private sid key
  ]

  get-clean_lattices :
      (p : Pool) (timestamp : ℕ) (lattices : HashMap Namespace Lattice) (ns : Namespace)
      → get (clean_lattices p timestamp lattices) ns
        ≡ elim (get lattices ns) as (λ x. Option Lattice) [
          | none ↦ none
          | some lat ↦ some (record lat { private = clean_private p timestamp lat.private })
        ]
  unfolding clean_lattices get
  get-clean_lattices p ts [] ns = refl
  get-clean_lattices p ts ((name, lat) ∷ lattices) ns =
      ground (arith, get-clean_lattices p ts lattices ns, string_eq.beq_iff name ns)

  -- When the interval since the last cleanup has passed, `lattice_cleanup` keeps a private value with
  -- the expiry WithSession exactly if its session is there, one with At exactly until its time, and
  -- one with IfUnused if either holds, which becomes WithSession when its time has passed. The maps
  -- of the lattice hold each key once.
  pub lattice_cleanup-kept :
      (timestamp : ℕ) (p : Pool) (ns : Namespace) (lat : Lattice) (sid : SessionId) (key : Key)
      → ltb timestamp (p.last_lattice_cleanup + lattice_cleanup_interval) ≡ false
      → get p.lattices ns ≡ some lat
      → IsDistinctPrivate lat.private
      → stored_value (lattice_cleanup timestamp p).1 ns sid key
        ≡ kept (is_some (session_get p sid)) timestamp (stored_value p ns sid key)
  unfolding lattice_cleanup
  lattice_cleanup-kept timestamp p ns lat sid key due e d = ground (
    arith,
    due,
    e,
    get-clean_lattices p timestamp p.lattices ns,
    get-clean_private p timestamp lat.private sid key d,
  )
