-- ===== src/Pool/Lattices.antt =====
-- `lattice_attach`, `lattice_detach` and `lattice_update` of pool.rs.
use swindon.Prelude.{List, [], ◌∷◌, ◌++◌, none, some, if◌then◌else◌, string_eq, nat_eq, unwrap_or}
use swindon.World.{World}
use swindon.Timers.{Timers}
use swindon.Std.HashMap
use swindon.Std.HashMap.{HashMap, get, insert, remove, upsert}
use swindon.Std.HashSet
use swindon.Std.HashSet.{HashSet}
use swindon.Lattice.State.{SessionId, Key, Rooms}
use swindon.Pool.Types.{Cid, Namespace, Session, Connection, Pool}
use swindon.Pool.Output.{session_get, session_adjust, lattice_from}
use swindon.Pool.Attach.{remove_lattice}

module _ ⦃w : World⦄ ⦃h : Timers Session⦄ where
  -- `lattice_attach` for an associated connection.
  unfoldable pub attach_connection : Cid → Namespace → Connection → Pool → Pool
  attach_connection cid namespace conn p = elim (session_get p conn.session_id) [
    | none ↦ p
    | some sess ↦
        let p₁ = session_adjust p conn.session_id λ s. record s {
          lattices = upsert s.lattices namespace [] (λ cids. HashSet.insert cids cid);
        } in
        let p₂ : Pool = record p₁ {
          connections =
              insert p₁.connections cid
                (record conn { lattices = HashSet.insert conn.lattices namespace });
        } in
        elim (get p₂.lattices namespace) [
          | none ↦ p₂
          | some lat ↦ lattice_from conn.channel namespace conn.session_id lat p₂
        ]
  ]

  unfoldable pub lattice_attach : Cid → Namespace → Pool → Pool
  unfolding attach_connection
  lattice_attach cid namespace p = elim (get p.connections cid) [
    | some conn ↦ attach_connection cid namespace conn p
    | none ↦ elim (get p.pending_connections cid) [
      | some conn ↦ record p {
        pending_connections =
            insert p.pending_connections cid
              (record conn { lattices = HashSet.insert conn.lattices namespace });
      }
      | none ↦ p
    ]
  ]

  -- `lattice_detach` for an associated connection.
  unfoldable pub detach_connection : Cid → Namespace → Connection → Pool → Pool
  detach_connection cid namespace conn p = elim (session_get p conn.session_id) [
    | none ↦ p
    | some sess ↦
        let (sess', p₁) = remove_lattice sess conn.session_id cid namespace p in
        let p₂ = session_adjust p₁ conn.session_id (λ s. sess') in
        record p₂ {
          connections =
              insert p₂.connections cid
                (record conn { lattices = HashSet.remove conn.lattices namespace });
        }
  ]

  unfoldable pub lattice_detach : Cid → Namespace → Pool → Pool
  unfolding detach_connection
  lattice_detach cid namespace p = elim (get p.connections cid) [
    | some conn ↦ detach_connection cid namespace conn p
    | none ↦ elim (get p.pending_connections cid) [
      | some conn ↦ record p {
        pending_connections =
            insert p.pending_connections cid
              (record conn { lattices = HashSet.remove conn.lattices namespace });
      }
      | none ↦ p
    ]
  ]

  abbrev Subscriptions : Type 0
  Subscriptions = HashMap Key (HashSet SessionId)

  -- The keys of one session that it was not subscribed to, and the subscriptions with it.
  subscribe_rooms : SessionId → List Key → Subscriptions → List Key → Subscriptions × List Key
  subscribe_rooms sid [] subs new_keys = (subs, new_keys)
  subscribe_rooms sid (key ∷ iter) subs new_keys =
      let old = unwrap_or (get subs key) [] in
      subscribe_rooms sid iter (insert subs key (HashSet.insert old sid))
        (if HashSet.contains old sid then new_keys else new_keys ++ key ∷ [])

  -- The loop over `delta.private`; a session is entered in `new_keys` if it has a new key.
  unfoldable pub subscribe_sessions :
      HashMap SessionId Rooms
      → Subscriptions
      → HashMap SessionId (List Key)
      → Subscriptions × HashMap SessionId (List Key)
  unfolding subscribe_rooms
  subscribe_sessions [] subs new_keys = (subs, new_keys)
  subscribe_sessions ((sid, rooms) ∷ iter) subs new_keys =
      let (subs', ks) = subscribe_rooms sid (HashMap.keys rooms) subs [] in
      subscribe_sessions iter subs' (
        if HashSet.is_empty ks
        then new_keys
        else insert new_keys sid (unwrap_or (get new_keys sid) [] ++ ks))
