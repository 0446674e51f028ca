-- ===== src/Pool/Attach.antt =====
-- `remove_lattice` and `copy_attachments` of pool.rs: which connections of a session follow which
-- lattice.
use swindon.Prelude.{List, [], ◌∷◌, none, some, if◌then◌else◌, string_eq, nat_eq}
use swindon.World.{World}
use swindon.Timers.{Timers}
use swindon.Std.HashMap.{HashMap, get, insert, remove, upsert}
use swindon.Std.HashSet
use swindon.Std.HashSet.{HashSet}
use swindon.Lattice.State.{SessionId, remove_session, is_empty}
use swindon.Pool.Types.{Cid, Namespace, decr, Gauge, Session, Connection, Pool, emit}

module _ ⦃w : World⦄ ⦃h : Timers Session⦄ where
  -- The part of `remove_lattice` that runs when the session's last connection left a namespace.
  unfoldable pub leave_lattice : SessionId → Namespace → Pool → Pool
  leave_lattice session_id namespace p = elim (get p.lattices namespace) [
    | none ↦ p
    | some lat ↦
        let left = remove_session lat session_id in
        if is_empty left
        then emit (decr Gauge.lattices) (record p { lattices = remove p.lattices namespace })
        else record p { lattices = insert p.lattices namespace left }
  ]

  -- `remove_lattice`: the session and the pool. A namespace that the session does not follow is
  -- only logged.
  unfoldable pub remove_lattice : Session → SessionId → Cid → Namespace → Pool → Session × Pool
  unfolding leave_lattice
  remove_lattice session session_id cid namespace p = elim (get session.lattices namespace) [
    | none ↦ (session, p)
    | some cids ↦
        let left = HashSet.remove cids cid in
        if HashSet.is_empty left
        then (
          record session { lattices = remove session.lattices namespace },
          leave_lattice session_id namespace p,
        )
        else (record session { lattices = insert session.lattices namespace left }, p)
  ]

  unfoldable pub remove_lattices :
      Session → SessionId → Cid → List Namespace → Pool → Session × Pool
  unfolding remove_lattice
  remove_lattices session session_id cid [] p = (session, p)
  remove_lattices session session_id cid (lat ∷ lats) p =
      let (session', p') = remove_lattice session session_id cid lat p in
      remove_lattices session' session_id cid lats p'

module _ ⦃w : World⦄ where
  attach_all :
      HashMap Namespace (HashSet Cid) → Cid → List Namespace → HashMap Namespace (HashSet Cid)
  attach_all m cid [] = m
  attach_all m cid (namespace ∷ iter) =
      attach_all (upsert m namespace [] (λ s. HashSet.insert s cid)) cid iter

  unfoldable pub copy_attachments : Session → Connection → Cid → HashSet SessionId → Session
  unfolding attach_all
  copy_attachments sess conn cid users =
      let sess' : Session = record sess { lattices = attach_all sess.lattices cid conn.lattices } in
      if conn.users_lattice
      then record sess' {
        users_lattice = record {
          peers = HashSet.extend sess.users_lattice.peers users;
          connections = HashSet.insert sess.users_lattice.connections cid;
        };
      }
      else sess'
