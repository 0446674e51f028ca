-- ===== src/Lattice/State.antt =====
-- `Values`, `Lattice` and `Delta` of lattice.rs. Times are milliseconds; `Instant::now()` is the
-- argument `now`, read once for a call.
use swindon.Prelude.{
  ℕ, ◌+◌, Bool, ◌&&◌, String, List, [], ◌∷◌, none, some, if◌then◌else◌, string_eq, unwrap_or,
}
use swindon.World.{World}
use swindon.Std.HashMap
use swindon.Std.HashMap.{HashMap, get, insert, remove, remove_all}
use swindon.Std.HashSet
use swindon.Std.HashSet.{HashSet}
use swindon.Lattice.Crdt.{Register, crdt_update, counter_crdt, set_crdt, register_crdt}

pub data Expires : Type 0 where
  with_session : Expires
  at if_unused : ℕ → Expires

-- Interned names (crate `string_intern`) are their texts.
abbrev pub Key : Type 0
Key = String

abbrev pub Var : Type 0
Var = String

abbrev pub SessionId : Type 0
SessionId = String

-- The `for` loop of `Values::update` over one map: `insert` one by one.
unfoldable pub insert_all {ℓ} : {V : Type ℓ} → HashMap Var V → HashMap Var V → HashMap Var V
insert_all m [] = m
insert_all m ((k, v) ∷ es) = insert_all (insert m k v) es

-- `Duration::new(60, 0)`.
abbrev pub unused_timeout : ℕ
unused_timeout = 60000

unfoldable pub refresh : ℕ → Expires → Expires
refresh now (at t) = at t
refresh now with_session = if_unused (now + unused_timeout)
refresh now (if_unused t) = if_unused (now + unused_timeout)

module _ ⦃w : World⦄ where
  pub record Values : Type 0 where
    pub counters : HashMap Var ℕ
    pub sets : HashMap Var (HashSet String)
    pub registers : HashMap Var Register
    pub expires : Expires

  abbrev pub Rooms : Type 0
  Rooms = HashMap Key Values

  pub record Lattice : Type 0 where
    pub shared : Rooms
    pub private : HashMap SessionId Rooms
    pub subscriptions : HashMap Key (HashSet SessionId)

  pub record Delta : Type 0 where
    pub shared : Rooms
    pub private : HashMap SessionId Rooms

  abbrev pub new_values : Values
  new_values = record { counters = []; sets = []; registers = []; expires = with_session }

  abbrev pub new_lattice : Lattice
  new_lattice = record { shared = []; private = []; subscriptions = [] }

  unfoldable pub values_update : Values → Values → Values
  unfolding insert_all
  values_update mine other = record mine {
    counters = insert_all mine.counters other.counters;
    sets = insert_all mine.sets other.sets;
    registers = insert_all mine.registers other.registers;
  }

  unfoldable pub is_empty_values : Values → Bool
  is_empty_values v =
      HashMap.is_empty v.counters && HashMap.is_empty v.sets && HashMap.is_empty v.registers

  -- The body of both loops of `Lattice::update`, for one room: the stored values, and what is
  -- left of the delta's.
  unfoldable pub room_update : ℕ → Values → Values → Values × Values
  unfolding is_empty_values refresh
  room_update now mine values =
      let (counters, new_counters) = crdt_update mine.counters values.counters in
      let (sets, new_sets) = crdt_update mine.sets values.sets in
      let (registers, new_registers) = crdt_update mine.registers values.registers in
      let left : Values = record values {
        counters = new_counters;
        sets = new_sets;
        registers = new_registers;
      } in
      (
        record mine { counters = counters; sets = sets; registers = registers },
        if is_empty_values left then left else record left { expires = refresh now left.expires },
      )

  -- A loop over rooms: the stored rooms, the delta's rooms, and the keys in `del`.
  unfoldable pub rooms_loop : ℕ → Rooms → Rooms → Rooms × Rooms × List Key
  unfolding is_empty_values
  rooms_loop now mine [] = (mine, [], [])
  rooms_loop now mine ((room, values) ∷ iter) =
      let (stored, left) = room_update now (unwrap_or (get mine room) new_values) values in
      let (mine', rest, del) = rooms_loop now (insert mine room stored) iter in
      (mine', (room, left) ∷ rest, if is_empty_values left then room ∷ del else del)

  unfoldable pub rooms_update : ℕ → Rooms → Rooms → Rooms × Rooms
  unfolding rooms_loop
  rooms_update now mine delta =
      let (mine', left, del) = rooms_loop now mine delta in (mine', remove_all left del)

  unfoldable pub private_loop :
      ℕ
      → HashMap SessionId Rooms
      → HashMap SessionId Rooms
      → HashMap SessionId Rooms × HashMap SessionId Rooms
  private_loop now mine [] = (mine, [])
  private_loop now mine ((session_id, rooms) ∷ iter) =
      let (stored, left) = rooms_update now (unwrap_or (get mine session_id) []) rooms in
      let (mine', rest) = private_loop now (insert mine session_id stored) iter in
      (mine', (session_id, left) ∷ rest)

  -- `Lattice::update`: the lattice, and the delta less what changed nothing.
  unfoldable pub update : ℕ → Lattice → Delta → Lattice × Delta
  unfolding rooms_update private_loop
  update now lat delta =
      let (shared, new_shared) = rooms_update now lat.shared delta.shared in
      let (private, new_private) = private_loop now lat.private delta.private in
      (
        record lat { shared = shared; private = private },
        record { shared = new_shared; private = new_private },
      )

  -- One round of the loop of `remove_session`.
  unfoldable pub drop_subscription : SessionId → Lattice → Key → Lattice
  drop_subscription sid lat key = elim (get lat.subscriptions key) [
    | none ↦ lat
    | some subs ↦
        let left = HashSet.remove subs sid in
        if HashSet.is_empty left
        then record lat {
          subscriptions = remove lat.subscriptions key;
          shared = remove lat.shared key;
        }
        else record lat { subscriptions = insert lat.subscriptions key left }
  ]

  unfoldable pub drop_subscriptions : SessionId → Lattice → List Key → Lattice
  unfolding drop_subscription
  drop_subscriptions sid lat [] = lat
  drop_subscriptions sid lat (key ∷ iter) =
      drop_subscriptions sid (drop_subscription sid lat key) iter

  -- `Lattice::remove_session`
  unfoldable pub remove_session : Lattice → SessionId → Lattice
  unfolding drop_subscriptions
  remove_session lat sid = elim (get lat.private sid) [
    | none ↦ lat
    | some skeys ↦
        drop_subscriptions sid (record lat { private = remove lat.private sid })
          (HashMap.keys skeys)
  ]

  unfoldable pub is_empty : Lattice → Bool
  is_empty lat =
      HashMap.is_empty lat.shared
      && HashMap.is_empty lat.private
      && HashMap.is_empty lat.subscriptions
