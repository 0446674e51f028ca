-- ===== src/Pool/Users.antt =====
-- The `swindon.user` lattice: `users_attach`, `users_update` and `users_detach` of pool.rs, and
-- `stop`.
use swindon.Prelude.{ℕ, false, List, [], ◌∷◌, none, some, string_eq, nat_eq}
use swindon.World.{World}
use swindon.Timers.{Timers}
use swindon.Outcome.{Outcome, ok, ◌>>=◌}
use swindon.Pair.{insert_list_key1}
use swindon.Std.HashMap.{HashMap, get, insert}
use swindon.Std.HashSet
use swindon.Lattice.State.{SessionId}
use swindon.Pool.Types.{
  Cid, ConnectionMessage, stop_sock, pool_stopped, Effect, sent, Session, NewConnection, Connection,
  Pool, emit,
}
use swindon.Pool.Output.{session_get, session_adjust, get_user_statuses, send_all, swindon_user}

module _ ⦃w : World⦄ ⦃h : Timers Session⦄ where
  unfoldable pub add_peers : List SessionId → Session → Session
  add_peers uids sess = record sess {
    users_lattice = record {
      connections = sess.users_lattice.connections;
      peers = HashSet.extend sess.users_lattice.peers uids;
    };
  }

  -- `users_attach` for an associated connection.
  unfoldable pub attach_users : Cid → List SessionId → ℕ → Connection → Pool → Outcome Pool
  unfolding add_peers
  attach_users cid uids now conn p = do
    statuses ← get_user_statuses p now uids
    elim (session_get p conn.session_id) [
      | none ↦ ok p
      | some sess ↦
          let p' = session_adjust p conn.session_id λ s. add_peers uids (record s {
            users_lattice = record {
              connections = HashSet.insert s.users_lattice.connections cid;
              peers = s.users_lattice.peers;
            };
          }) in
          ok (
            emit (sent conn.channel (ConnectionMessage.lattice swindon_user statuses)) (record p' {
              user_listeners = insert_list_key1 p'.user_listeners uids conn.session_id;
            }))
    ]

  unfoldable pub users_attach : Cid → List SessionId → ℕ → Pool → Outcome Pool
  unfolding attach_users
  users_attach cid uids now p = elim (get p.connections cid) [
    | some conn ↦ attach_users cid uids now conn p
    | none ↦ elim (get p.pending_connections cid) [
      | some conn ↦ ok (record p {
        pending_connections =
            insert p.pending_connections cid
              (record conn { users_lattice = HashSet.extend conn.users_lattice uids });
      })
      | none ↦ ok p
    ]
  ]

  unfoldable pub users_update : SessionId → List SessionId → ℕ → Pool → Outcome Pool
  unfolding add_peers
  users_update session_id uids now p = do
    statuses ← get_user_statuses p now uids
    elim (session_get p session_id) [
      | none ↦ ok p
      | some sess ↦
          let p' = session_adjust p session_id (add_peers uids) in
          ok (
            send_all (ConnectionMessage.lattice swindon_user statuses)
              sess.users_lattice.connections
              (record p' { user_listeners = insert_list_key1 p'.user_listeners uids session_id }))
    ]

  -- `users_detach` for an associated connection.
  unfoldable pub detach_users : Cid → Connection → Pool → Pool
  detach_users cid conn p = elim (session_get p conn.session_id) [
    | none ↦ p
    | some sess ↦
        let p' = session_adjust p conn.session_id λ s. record s {
          users_lattice = record {
            connections = HashSet.remove s.users_lattice.connections cid;
            peers = [];
          };
        } in
        record p' {
          connections = insert p'.connections cid (record conn { users_lattice = false });
        }
  ]

  unfoldable pub users_detach : Cid → Pool → Pool
  unfolding detach_users
  users_detach cid p = elim (get p.connections cid) [
    | some conn ↦ detach_users cid conn p
    | none ↦ elim (get p.pending_connections cid) [
      | some conn ↦ record p {
        pending_connections = insert p.pending_connections cid (record conn { users_lattice = [] });
      }
      | none ↦ p
    ]
  ]

  stop_pending : HashMap Cid NewConnection → List Effect → List Effect
  stop_pending [] out = out
  stop_pending ((cid, conn) ∷ iter) out =
      stop_pending iter (sent conn.channel (stop_sock pool_stopped) ∷ out)

  stop_connections : HashMap Cid Connection → List Effect → List Effect
  stop_connections [] out = out
  stop_connections ((cid, conn) ∷ iter) out =
      stop_connections iter (sent conn.channel (stop_sock pool_stopped) ∷ out)

  -- `stop` consumes the pool: what is left is what was sent.
  unfoldable pub stop : Pool → List Effect
  unfolding stop_pending stop_connections
  stop p = stop_connections p.connections (stop_pending p.pending_connections p.out)
