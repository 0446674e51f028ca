-- ===== src/Pool/Connections.antt =====
-- The life of a connection: `add_connection`, `associate` and `del_connection` of pool.rs.
use swindon.Prelude.{
  ℕ, ◌+◌, Bool, true, false, not, List, [], ◌∷◌, none, some, if◌then◌else◌, string_eq, nat_eq,
}
use swindon.World.{World}
use swindon.Timers.{Timers}
use swindon.Outcome.{Outcome, ok, ◌>>=◌, expect}
use swindon.Pair.{insert_list_key1, remove_list_key1}
use swindon.Std.HashMap.{get, insert, remove}
use swindon.Std.HashSet
use swindon.Std.HashSet.{HashSet}
use swindon.Lattice.State.{SessionId}
use swindon.Pool.Types.{
  Cid, Topic, Namespace, session, ConnectionMessage, sent, incr, decr, active_sessions,
  inactive_sessions, Session, NewConnection, Connection, Pool, emit, new_session, new_connection,
}
use swindon.Pool.Output.{
  lattice_from, get_user_statuses, publish_status, swindon_user, active_status, offline_status,
}
use swindon.Pool.Topics.{remove_subscription}
use swindon.Pool.Attach.{remove_lattices, copy_attachments}

module _ ⦃w : World⦄ where
  -- `NewConnection::associate` but for the buffered messages, which `flush_buffer` sends.
  unfoldable pub associated : NewConnection → SessionId → Connection
  associated conn session_id = record {
    cid = conn.cid;
    session_id = session_id;
    topics = conn.topics;
    lattices = conn.lattices;
    users_lattice = not (HashSet.is_empty conn.users_lattice);
    channel = conn.channel;
  }

  -- What the three branches of `associate` do to the session.
  unfoldable pub join_session :
      Session → Connection → Cid → HashSet SessionId → w.Json → ℕ → Session
  join_session sess conn conn_id users metadata now =
      copy_attachments
        (record sess {
          connections = HashSet.insert sess.connections conn_id;
          metadata = metadata;
          status_timestamp = now;
        })
        conn conn_id users

module _ ⦃w : World⦄ ⦃h : Timers Session⦄ where
  unfoldable pub add_connection : Cid → ℕ → Pool → Pool
  unfolding new_connection
  add_connection conn_id channel p = record p {
    pending_connections = insert p.pending_connections conn_id (new_connection conn_id channel);
  }

  unfoldable pub flush_buffer : ℕ → List (Topic × w.Json) → Pool → Pool
  flush_buffer channel [] p = p
  flush_buffer channel ((t, m) ∷ buffer) p =
      flush_buffer channel buffer (emit (sent channel (ConnectionMessage.publish t m)) p)

  -- The loop over `conn.lattices`: false if a lattice is missing, which ends `associate`.
  unfoldable pub send_lattices : Connection → SessionId → List Namespace → Pool → Bool × Pool
  send_lattices conn session_id [] p = (true, p)
  send_lattices conn session_id (namespace ∷ iter) p = elim (get p.lattices namespace) [
    | none ↦ (false, p)
    | some lat ↦
        send_lattices conn session_id iter (lattice_from conn.channel namespace session_id lat p)
  ]

  -- One round of the loop over `conn.topics`.
  unfoldable pub promote_topic : Cid → Topic → Pool → Outcome Pool
  promote_topic conn_id top p = do
    subs ← expect (get p.topics top)
    ptr ← expect (get subs conn_id)
    ok (record p { topics = insert p.topics top (insert subs conn_id session) })

  unfoldable pub promote_topics : Cid → List Topic → Pool → Outcome Pool
  unfolding promote_topic
  promote_topics conn_id [] p = ok p
  promote_topics conn_id (top ∷ tops) p =
      promote_topic conn_id top p >>= promote_topics conn_id tops

  -- The three branches: an inactive session, an active one, a new one.
  unfoldable pub enter_session :
      Cid → SessionId → ℕ → w.Json → ℕ → Connection → HashSet SessionId → Pool → Outcome Pool
  unfolding join_session
  enter_session conn_id session_id timestamp metadata now conn users p =
      let expire = timestamp + p.new_connection_timeout in
      elim (get p.inactive session_id) [
        | some sess ↦ do
          p' ←
              publish_status session_id active_status now
                (record p { inactive = remove p.inactive session_id })
          let sess' = join_session sess conn conn_id users metadata now
          ok (
              emit (incr active_sessions) (
                emit (decr inactive_sessions)
                  (record p' { active = h.insert p'.active session_id timestamp sess' })))
        | none ↦ elim (h.get p.active session_id) [
          | some sess ↦ ok (record p {
            active =
                h.adjust (h.update p.active session_id expire) session_id
                  (λ s. join_session s conn conn_id users metadata now);
          })
          | none ↦ do
            let sess' = join_session (new_session now) conn conn_id users metadata now
            p' ←
                publish_status session_id active_status now
                  (record p { active = h.insert p.active session_id expire sess' })
            ok (emit (incr active_sessions) p')
        ]
      ]

  -- `if conn.users_lattice { … }`
  unfoldable pub send_users : SessionId → ℕ → Connection → Pool → Outcome Pool
  send_users session_id now conn p = elim conn.users_lattice [
    | true ↦ do
      sess ← expect (h.get p.active session_id)
      let p' : Pool = record p {
        user_listeners = insert_list_key1 p.user_listeners sess.users_lattice.peers session_id;
      }
      statuses ← get_user_statuses p' now sess.users_lattice.peers
      ok (emit (sent conn.channel (ConnectionMessage.lattice swindon_user statuses)) p')
    | false ↦ ok p
  ]

  -- `associate` after the loop over the lattices.
  unfoldable pub finish_associate :
      Cid → SessionId → ℕ → w.Json → ℕ → Connection → HashSet SessionId → Pool → Outcome Pool
  unfolding promote_topics enter_session send_users
  finish_associate conn_id session_id timestamp metadata now conn users p = do
    p₁ ← promote_topics conn_id conn.topics p
    p₂ ← enter_session conn_id session_id timestamp metadata now conn users p₁
    p₃ ← send_users session_id now conn p₂
    ok (record p₃ { connections = insert p₃.connections conn_id conn })

  unfoldable pub associate : Cid → SessionId → ℕ → w.Json → ℕ → Pool → Outcome Pool
  unfolding flush_buffer associated send_lattices finish_associate
  associate conn_id session_id timestamp metadata now p = elim (get p.pending_connections conn_id) [
    | none ↦ ok p
    | some new_conn ↦
        let conn = associated new_conn session_id in
        let p₁ =
          flush_buffer new_conn.channel new_conn.message_buffer
            (record p { pending_connections = remove p.pending_connections conn_id }) in
        let (complete, p₂) = send_lattices conn session_id conn.lattices p₁ in
        if complete
        then finish_associate conn_id session_id timestamp metadata now conn new_conn.users_lattice
            p₂
        else ok p₂
  ]

  -- The loops over `conn.topics` of `del_connection`.
  unfoldable pub unsubscribe_all : Cid → List Topic → Pool → Pool
  unfolding remove_subscription
  unsubscribe_all conn_id [] p = p
  unsubscribe_all conn_id (top ∷ tops) p =
      unsubscribe_all conn_id tops (remove_subscription top conn_id p).1

  -- The part about `swindon.user` for an inactive session.
  unfoldable pub leave_users : Session → SessionId → Cid → Connection → Pool → Session × Pool
  leave_users sess session_id conn_id conn p =
      let left = HashSet.remove sess.users_lattice.connections conn_id in
      if conn.users_lattice
      then if HashSet.is_empty left
        then (
          record sess { users_lattice = record { connections = left; peers = [] } },
          record p {
            user_listeners = remove_list_key1 p.user_listeners sess.users_lattice.peers session_id;
          },
        )
        else (
          record sess {
            users_lattice = record { connections = left; peers = sess.users_lattice.peers };
          },
          p,
        )
      else (sess, p)

  -- `if conns == 0 { … }`, with the session as it was written back.
  unfoldable pub drop_inactive : SessionId → ℕ → Session → Pool → Outcome Pool
  drop_inactive session_id now sess p = elim (HashSet.is_empty sess.connections) [
    | true ↦ do
      p' ← publish_status session_id offline_status now p
      ok (
          emit (decr inactive_sessions) (record p' {
            inactive = remove p'.inactive session_id;
            user_listeners = remove_list_key1 p'.user_listeners sess.users_lattice.peers session_id;
          }))
    | false ↦ ok p
  ]

  -- The inactive branch of `del_connection`.
  unfoldable pub leave_inactive : Cid → Connection → ℕ → Session → Pool → Outcome Pool
  unfolding leave_users drop_inactive
  leave_inactive conn_id conn now sess p =
      let s₁ : Session = record sess {
        status_timestamp = now;
        connections = HashSet.remove sess.connections conn_id;
      } in
      let (s₂, p₂) = remove_lattices s₁ conn.session_id conn_id conn.lattices p in
      let (s₃, p₃) = leave_users s₂ conn.session_id conn_id conn p₂ in
      drop_inactive conn.session_id now s₃
        (record p₃ { inactive = insert p₃.inactive conn.session_id s₃ })

  -- `if let Some(session) = self.sessions.active.get_mut(…)`
  unfoldable pub leave_active : Cid → SessionId → Pool → Pool
  leave_active conn_id session_id p = record p {
    active =
        h.adjust p.active session_id
          (λ s. record s { connections = HashSet.remove s.connections conn_id });
  }

  unfoldable pub leave_session : Cid → Connection → ℕ → Pool → Outcome Pool
  unfolding leave_inactive leave_active
  leave_session conn_id conn now p = do
    p' ← elim (get p.inactive conn.session_id) [
      | some sess ↦ leave_inactive conn_id conn now sess p
      | none ↦ ok p
    ]
    ok (leave_active conn_id conn.session_id p')

  unfoldable pub del_connection : Cid → ℕ → Pool → Outcome Pool
  del_connection conn_id now p = elim (get p.pending_connections conn_id) [
    | some conn ↦ ok (
        unsubscribe_all conn_id conn.topics
          (record p { pending_connections = remove p.pending_connections conn_id }))
    | none ↦ do
      conn ← expect (get p.connections conn_id)
      leave_session conn_id conn now (
          unsubscribe_all conn_id conn.topics
            (record p { connections = remove p.connections conn_id }))
  ]
