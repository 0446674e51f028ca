-- ===== src/Pool/Ready/Users.antt =====
-- Readiness and the `swindon.user` operations of chat/processor/pool.rs.
use swindon.Prelude.{
  ℕ, ◌≡◌, refl, List, some, arith, All, string_eq, nat_eq, Option-cases, inl, inr,
}
use swindon.World.{World}
use swindon.Timers.{Timers}
use swindon.Outcome.{Returns}
use swindon.Pair.{Pairs, insert_list_key1}
use swindon.Std.HashMap.{get}
use swindon.Std.HashSet
use swindon.Lattice.State.{SessionId}
use swindon.Pool.Types.{Cid, ConnectionMessage, Effect, Session, Connection, Pool}
use swindon.Pool.Output.{session_get, session_adjust, swindon_user}
use swindon.Pool.Users.{
  add_peers, attach_users, users_attach, users_update, detach_users, users_detach,
}
use swindon.Pool.Frames.{IsKey, get_user_statuses-ok, send_all-Emits}
use swindon.Pool.Keys.{extend-All, PeersAreKeys}
use swindon.Pool.Sync.Associating.{IsReady}
use swindon.Pool.Ready.Topics.{HasKeys-fields}
use swindon.Pool.Ready.Sessions.{
  InSync-fields, put_pending-IsReady, put_joined-IsReady, session_adjust-IsReady,
}

module _ ⦃w : World⦄ ⦃h : Timers Session⦄ where
  add_peers-keys :
      (uids : List SessionId) (s : Session)
      → All IsKey uids
      → PeersAreKeys s
      → PeersAreKeys (add_peers uids s)
  unfolding add_peers
  add_peers-keys uids s u k = extend-All IsKey s.users_lattice.peers uids k u

  pub put_listeners-IsReady :
      (p : Pool) (l : Pairs SessionId SessionId) (out : List Effect)
      → IsReady p
      → IsReady (record p { user_listeners = l; out = out })
  put_listeners-IsReady p l out r =
      let q : Pool = record p { user_listeners = l; out = out } in
      record {
        sync = InSync-fields p q refl refl refl r.sync;
        keys = HasKeys-fields p q refl refl refl refl r.keys;
      }

  attach_users-IsReady :
      (cid : Cid) (uids : List SessionId) (now : ℕ) (conn : Connection) (p : Pool)
      → All IsKey uids
      → IsReady p
      → Returns IsReady (attach_users cid uids now conn p)
  unfolding attach_users
  attach_users-IsReady cid uids now conn p u r =
      let (rooms, e) = get_user_statuses-ok p now uids u in
      elim (Option-cases (session_get p conn.session_id)) [
        | inl n ↦ rw (e, attach_users, n) r
        | inr (sess, n) ↦
            rw (e, attach_users, n)
              (put_listeners-IsReady _ _ _ (
                session_adjust-IsReady p conn.session_id _
                  (λ x k.
                    add_peers-keys uids
                      (record x {
                        users_lattice = record {
                          connections = HashSet.insert x.users_lattice.connections cid;
                          peers = x.users_lattice.peers;
                        };
                      })
                      u k)
                  r))
      ]

  -- `users_attach` does not panic and keeps the pool ready, if every listed id is a lattice key.
  pub users_attach-IsReady :
      (cid : Cid) (uids : List SessionId) (now : ℕ) (p : Pool)
      → All IsKey uids
      → IsReady p
      → Returns IsReady (users_attach cid uids now p)
  unfolding users_attach
  users_attach-IsReady cid uids now p u r = elim (Option-cases (get p.connections cid)) [
    | inr (conn, e) ↦ rw (e, users_attach) (attach_users-IsReady cid uids now conn p u r)
    | inl n ↦ elim (Option-cases (get p.pending_connections cid)) [
      | inr (conn, e) ↦
          rw (n, users_attach, e)
            (put_pending-IsReady p cid conn _ e refl
              (extend-All IsKey conn.users_lattice uids (r.keys.pending cid conn e) u) r)
      | inl e ↦ rw (n, users_attach, e) r
    ]
  ]

  -- So does `users_update`.
  pub users_update-IsReady :
      (sid : SessionId) (uids : List SessionId) (now : ℕ) (p : Pool)
      → All IsKey uids
      → IsReady p
      → Returns IsReady (users_update sid uids now p)
  unfolding users_update
  users_update-IsReady sid uids now p u r =
      let (rooms, e) = get_user_statuses-ok p now uids u in
      elim (Option-cases (session_get p sid)) [
        | inl n ↦ rw (e, users_update, n) r
        | inr (sess, n) ↦
            let p' = session_adjust p sid (add_peers uids) in
            let p'' : Pool = record p' {
              user_listeners = insert_list_key1 p'.user_listeners uids sid;
            } in
            let (out, f) =
              send_all-Emits (ConnectionMessage.lattice swindon_user rooms)
                sess.users_lattice.connections p'' in
            rw (e, users_update, n, f)
              (put_listeners-IsReady p' _ out (
                session_adjust-IsReady p sid (add_peers uids) (λ x k. add_peers-keys uids x u k) r))
      ]

  connections-session_adjust :
      (p : Pool) (sid : SessionId) (f : Session → Session)
      → (session_adjust p sid f).connections ≡ p.connections
  unfolding session_adjust
  connections-session_adjust p sid f = ground arith

  pub joined_after :
      (p : Pool) (sid : SessionId) (f : Session → Session) (cid : Cid) (conn : Connection)
      → get p.connections cid ≡ some conn
      → get (session_adjust p sid f).connections cid ≡ some conn
  joined_after p sid f cid conn e = rw (connections-session_adjust p sid f) e

  -- `users_detach` keeps the pool ready.
  pub users_detach-IsReady : (cid : Cid) (p : Pool) → IsReady p → IsReady (users_detach cid p)
  unfolding users_detach detach_users
  users_detach-IsReady cid p r = elim (Option-cases (get p.connections cid)) [
    | inr (conn, e) ↦ elim (Option-cases (session_get p conn.session_id)) [
      | inl n ↦ rw (e, users_detach, detach_users, n) r
      | inr (sess, n) ↦
          rw (e, users_detach, detach_users, n)
            (put_joined-IsReady _ cid conn _ (joined_after p conn.session_id _ cid conn e) refl refl
              (session_adjust-IsReady p conn.session_id _ (λ x k. tt) r))
    ]
    | inl n ↦ elim (Option-cases (get p.pending_connections cid)) [
      | inr (conn, e) ↦ rw (n, users_detach, e) (put_pending-IsReady p cid conn _ e refl tt r)
      | inl e ↦ rw (n, users_detach, e) r
    ]
  ]
