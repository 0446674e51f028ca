-- ===== src/Pool/Updates.antt =====
-- The second half of `lattice_update` of pool.rs: who is told of a delta.
use swindon.Prelude.{ℕ, ◌||◌, List, [], ◌∷◌, none, some, if◌then◌else◌, string_eq, unwrap_or}
use swindon.World.{World}
use swindon.Timers.{Timers}
use swindon.Std.HashMap
use swindon.Std.HashMap.{HashMap, get, insert, remove, upsert, contains_key}
use swindon.Std.HashSet
use swindon.Std.HashSet.{HashSet}
use swindon.Lattice.State.{
  SessionId, Key, Rooms, Lattice, Delta, new_values, new_lattice, values_update, update,
}
use swindon.Pool.Types.{Namespace, ConnectionMessage, incr, Gauge, Session, Pool, emit}
use swindon.Pool.Output.{session_get, send_all}
use swindon.Pool.Lattices.{subscribe_sessions}

module _ ⦃w : World⦄ ⦃h : Timers Session⦄ where
  -- Sends a message to the connections of a session that follow a namespace.
  unfoldable pub send_followers : Namespace → ConnectionMessage → Session → Pool → Pool
  send_followers namespace msg sess p = elim (get sess.lattices namespace) [
    | none ↦ p
    | some cids ↦ send_all msg cids p
  ]

  -- The loop over the sessions of one room; `private` is the delta's private part.
  unfoldable pub send_shared_sessions :
      Namespace
      → ConnectionMessage
      → HashMap SessionId Rooms
      → List SessionId
      → HashSet SessionId
      → Pool
      → HashSet SessionId × Pool
  unfolding send_followers
  send_shared_sessions namespace msg private [] already_sent p = (already_sent, p)
  send_shared_sessions namespace msg private (sid ∷ sessions) already_sent p =
      let skip = send_shared_sessions namespace msg private sessions already_sent p in
      if HashSet.contains already_sent sid || contains_key private sid
      then skip
      else elim (session_get p sid) [
        | none ↦ send_shared_sessions namespace msg private sessions already_sent p
        | some sess ↦
            send_shared_sessions namespace msg private sessions (HashSet.insert already_sent sid)
              (send_followers namespace msg sess p)
      ]

  -- The loop over the rooms of `pubdata`.
  unfoldable pub send_shared :
      Namespace
      → ConnectionMessage
      → HashMap SessionId Rooms
      → HashMap Key (HashSet SessionId)
      → List Key
      → HashSet SessionId
      → Pool
      → Pool
  unfolding send_shared_sessions
  send_shared namespace msg private subscriptions [] already_sent p = p
  send_shared namespace msg private subscriptions (room ∷ rooms) already_sent p =
      elim (get subscriptions room) [
        | none ↦ send_shared namespace msg private subscriptions rooms already_sent p
        | some sessions ↦
            let (sent', p') = send_shared_sessions namespace msg private sessions already_sent p in
            send_shared namespace msg private subscriptions rooms sent' p'
      ]

  -- Adds the published rooms that the session has private values in.
  add_published : Rooms → Rooms → Rooms → Rooms
  add_published allowed [] rooms = rooms
  add_published allowed ((room, pubval) ∷ pubdata) rooms = add_published allowed pubdata (
      if contains_key allowed room
      then upsert rooms room new_values (λ v. values_update v pubval)
      else rooms)

  -- Adds the whole of the rooms that the session is new to.
  add_new_rooms : Rooms → List Key → Rooms → Rooms
  add_new_rooms shared [] rooms = rooms
  add_new_rooms shared (room ∷ new_rooms) rooms = elim (get shared room) [
    | none ↦ add_new_rooms shared new_rooms rooms
    | some pubval ↦
        add_new_rooms shared new_rooms (upsert rooms room new_values (λ v. values_update v pubval))
  ]

  -- The rooms that one session of the delta is told of.
  unfoldable pub rooms_for :
      Lattice → Rooms → HashMap SessionId (List Key) → SessionId → Rooms → Rooms
  unfolding add_published add_new_rooms
  rooms_for lat pubdata new_keys session_id rooms =
      add_new_rooms lat.shared (unwrap_or (get new_keys session_id) [])
        (elim (get lat.private session_id) [
          | none ↦ rooms
          | some allowed ↦ add_published allowed pubdata rooms
        ])

  unfoldable pub send_private :
      Namespace
      → Lattice
      → Rooms
      → HashMap SessionId (List Key)
      → HashMap SessionId Rooms
      → Pool
      → Pool
  unfolding rooms_for
  send_private namespace lat pubdata new_keys [] p = p
  send_private namespace lat pubdata new_keys ((session_id, rooms) ∷ iter) p =
      let rooms' = rooms_for lat pubdata new_keys session_id rooms in
      let rest = remove new_keys session_id in
      elim (session_get p session_id) [
        | none ↦ send_private namespace lat pubdata rest iter p
        | some sess ↦
            send_private namespace lat pubdata rest iter
              (send_followers namespace (ConnectionMessage.lattice namespace rooms') sess p)
      ]

  -- What `lattice_update` does after the lattice is updated; `delta` is the minimal delta.
  unfoldable pub announce : Namespace → Lattice → HashMap SessionId (List Key) → Delta → Pool → Pool
  announce namespace lat new_keys delta p =
      send_private namespace lat delta.shared new_keys delta.private (
        send_shared namespace (ConnectionMessage.lattice namespace delta.shared) delta.private
          lat.subscriptions (HashMap.keys delta.shared) [] p)

  -- `self.lattices.entry(namespace).or_insert_with(…)`
  unfoldable pub open_lattice : Namespace → Pool → Lattice × Pool
  open_lattice namespace p = elim (get p.lattices namespace) [
    | some lat ↦ (lat, p)
    | none ↦ (new_lattice, emit (incr Gauge.lattices) p)
  ]

  unfoldable pub lattice_update : Namespace → ℕ → Delta → Pool → Pool
  lattice_update namespace now delta p =
      let (lat, p₁) = open_lattice namespace p in
      let (subscriptions, new_keys) = subscribe_sessions delta.private lat.subscriptions [] in
      let (lat', left) = update now (record lat { subscriptions = subscriptions }) delta in
      announce namespace lat' new_keys left
        (record p₁ { lattices = insert p₁.lattices namespace lat' })
