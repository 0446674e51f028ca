-- ===== src/Pool/Frames.antt =====
-- The helpers of chat/processor/pool.rs that only send.
use swindon.Prelude.{
  ℕ, ◌≡◌, refl, true, List, [], ◌∷◌, arith, All, string_eq, nat_eq, is_some, Option-cases, inl, inr,
  ap,
}
use swindon.World.{World}
use swindon.Timers.{Timers}
use swindon.Outcome.{Outcome, ok}
use swindon.Intern.{codes, valid_topic, parse_key}
use swindon.Std.HashMap.{get, insert}
use swindon.Std.HashSet.{contains}
use swindon.Lattice.State.{SessionId, Rooms}
use swindon.Pool.Types.{
  Cid, Topic, Namespace, ConnectionMessage, Effect, sent, Session, Connection, Pool, emit,
}
use swindon.Pool.Output.{
  send_all, notify, publish_status, single_update, get_user_statuses, user_statuses_loop,
  lattice_from, session_get, status_of, user_status_update,
}
use swindon.Pool.Connections.{flush_buffer, send_lattices}

-- A session id that may be a lattice key, so that parsing it as one does not panic.
abbrev pub IsKey : SessionId → Type 0
IsKey sid = valid_topic (codes sid) ≡ true

parse_key-ok : (sid : SessionId) → IsKey sid → parse_key sid ≡ ok sid
unfolding parse_key
parse_key-ok sid k = rw k

module _ ⦃w : World⦄ ⦃h : Timers Session⦄ where
  -- The pool is as it was but for what was sent.
  abbrev pub Emits : Pool → Pool → Type 0
  Emits p q = (out : List Effect) × (q ≡ record p { out = out })

  abbrev pub EmitsOk : Pool → Outcome Pool → Type 0
  EmitsOk p m = (out : List Effect) × (m ≡ ok (record p { out = out }))

  pub send_all-Emits :
      (msg : ConnectionMessage) (cids : List Cid) (p : Pool) → Emits p (send_all msg cids p)
  unfolding send_all
  send_all-Emits msg [] p = (p.out, refl)
  send_all-Emits msg (cid ∷ cids) p = elim (Option-cases (get p.connections cid)) [
    | inl e ↦ rw (e, send_all) (send_all-Emits msg cids p)
    | inr (conn, e) ↦ rw (e, send_all) (send_all-Emits msg cids (emit (sent conn.channel msg) p))
  ]

  pub notify-Emits :
      (msg : ConnectionMessage) (subscr : List SessionId) (p : Pool) → Emits p (notify msg subscr p)
  unfolding notify
  notify-Emits msg [] p = (p.out, refl)
  notify-Emits msg (sid ∷ subscr) p = elim (Option-cases (session_get p sid)) [
    | inl e ↦ rw (e, notify) (notify-Emits msg subscr p)
    | inr (sess, e) ↦
        let (out, f) = send_all-Emits msg sess.users_lattice.connections p in
        rw (e, notify) (rw f (notify-Emits msg subscr (record p { out = out })))
  ]

  -- A status change is announced without a panic if the session id is a key.
  pub publish_status-EmitsOk :
      (sid : SessionId) (status : w.Json) (ts : ℕ) (p : Pool)
      → IsKey sid
      → EmitsOk p (publish_status sid status ts p)
  unfolding publish_status single_update
  publish_status-EmitsOk sid status ts p k = elim (Option-cases (get p.user_listeners sid)) [
    | inl e ↦ rw (e, publish_status) (p.out, refl)
    | inr (subscr, e) ↦
        let up = (sid, user_status_update status ts) ∷ [] in
        let (out, f) = notify-Emits (ConnectionMessage.lattice "swindon.user" up) subscr p in
        rw (e, publish_status, parse_key-ok sid k) (out, ap ok f)
  ]

  user_statuses_loop-ok :
      (p : Pool) (now : ℕ) (result : Rooms) (peers : List SessionId)
      → All IsKey peers
      → (rooms : Rooms) × (user_statuses_loop p now result peers ≡ ok rooms)
  unfolding user_statuses_loop
  user_statuses_loop-ok p now result [] k = (result, refl)
  user_statuses_loop-ok p now result (peer ∷ peers) k =
      let (status, ts) = status_of p peer now in
      let (rooms, e) =
        user_statuses_loop-ok p now (insert result peer (user_status_update status ts)) peers k.1 in
      (rooms, rw (parse_key-ok peer k.0) e)

  pub get_user_statuses-ok :
      (p : Pool) (now : ℕ) (peers : List SessionId)
      → All IsKey peers
      → (rooms : Rooms) × (get_user_statuses p now peers ≡ ok rooms)
  unfolding get_user_statuses
  get_user_statuses-ok p now peers k = user_statuses_loop-ok p now [] peers k

  pub flush_buffer-Emits :
      (channel : ℕ) (buffer : List (Topic × w.Json)) (p : Pool)
      → Emits p (flush_buffer channel buffer p)
  unfolding flush_buffer
  flush_buffer-Emits channel [] p = (p.out, refl)
  flush_buffer-Emits channel ((t, m) ∷ buffer) p =
      flush_buffer-Emits channel buffer (emit (sent channel (ConnectionMessage.publish t m)) p)

  -- With every lattice there the loop of `associate` runs to its end.
  pub send_lattices-Emits :
      (conn : Connection) (sid : SessionId) (names : List Namespace) (p : Pool)
      → ((ns : Namespace) → contains names ns ≡ true → is_some (get p.lattices ns) ≡ true)
      → (out : List Effect) × (send_lattices conn sid names p ≡ (true, record p { out = out }))
  unfolding send_lattices lattice_from contains
  send_lattices-Emits conn sid [] p k = (p.out, refl)
  send_lattices-Emits conn sid (ns ∷ names) p k = elim (Option-cases (get p.lattices ns)) [
    | inl e ↦ absurd (ground (arith, k ns, string_eq.beq_iff ns ns, e))
    | inr (lat, e) ↦
        rw (e, send_lattices)
          (send_lattices-Emits conn sid names (lattice_from conn.channel ns sid lat p)
            (λ m c. k m (ground (arith, c))))
  ]
