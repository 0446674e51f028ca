-- ===== src/Pool/Ready/Sessions.antt =====
-- Changes to sessions and to connections, as they bear on readiness; `update_activity`.
use swindon.Prelude.{
  ℕ, ◌≡◌, refl, ◌==◌, List, Option, none, some, arith, All, string_eq, nat_eq, option_map,
  Option-cases, inl, inr, Bool-cases,
}
use swindon.World.{World}
use swindon.Timers.{Timers}
use swindon.Outcome.{Returns}
use swindon.Std.HashMap.{HashMap, get, insert, remove, adjust, get-insert, get-remove, get-adjust}
use swindon.Lattice.State.{SessionId}
use swindon.Pool.Types.{
  Cid, Effect, incr, decr, active_sessions, inactive_sessions, Session, NewConnection, Connection,
  Pool, new_session, emit,
}
use swindon.Pool.Output.{session_adjust, active_status}
use swindon.Pool.Activity.{update_activity}
use swindon.Pool.Frames.{IsKey, publish_status-EmitsOk}
use swindon.Pool.Keys.{PeersAreKeys}
use swindon.Pool.Sync.Tables.{InSync}
use swindon.Pool.Sync.Associating.{IsReady}
use swindon.Pool.Ready.Topics.{HasKeys-fields, put_pending-HasKeys, put_joined-HasKeys}

module _ ⦃w : World⦄ ⦃h : Timers Session⦄ where
  pub InSync-fields :
      (p q : Pool)
      → q.topics ≡ p.topics
      → q.pending_connections ≡ p.pending_connections
      → q.connections ≡ p.connections
      → InSync p
      → InSync q
  InSync-fields p q t n c s = record {
    exact = rw (t, n, c) s.exact;
    apart = rw (n, c) s.apart;
    distinct = rw t s.distinct;
  }

  -- A connection is written back with its topics as they were.
  pub put_pending-IsReady :
      (p : Pool) (cid : Cid) (old conn : NewConnection)
      → get p.pending_connections cid ≡ some old
      → conn.topics ≡ old.topics
      → All IsKey conn.users_lattice
      → IsReady p
      → IsReady (record p { pending_connections = insert p.pending_connections cid conn })
  put_pending-IsReady p cid old conn e t u r = record {
    sync = record {
      exact = λ t' c.
          ground (arith, get-insert p.pending_connections cid c conn, r.sync.exact t' c, e, t);
      apart = λ c. ground (arith, get-insert p.pending_connections cid c conn, r.sync.apart c, e);
      distinct = r.sync.distinct;
    };
    keys = put_pending-HasKeys p cid conn u r.keys;
  }

  pub put_joined-IsReady :
      (p : Pool) (cid : Cid) (old conn : Connection)
      → get p.connections cid ≡ some old
      → conn.topics ≡ old.topics
      → conn.session_id ≡ old.session_id
      → IsReady p
      → IsReady (record p { connections = insert p.connections cid conn })
  put_joined-IsReady p cid old conn e t i r = record {
    sync = record {
      exact = λ t' c. ground (arith, get-insert p.connections cid c conn, r.sync.exact t' c, e, t);
      apart = λ c. ground (arith, get-insert p.connections cid c conn, r.sync.apart c, e);
      distinct = r.sync.distinct;
    };
    keys = put_joined-HasKeys p cid conn (rw i (r.keys.joined cid old e)) r.keys;
  }

  -- Sessions are replaced; the tables stay.
  pub put_sessions-IsReady :
      (p : Pool) (active : h.Map) (inactive : HashMap SessionId Session)
      → ((sid : SessionId) (s : Session) → h.get active sid ≡ some s → IsKey sid × PeersAreKeys s)
      → ((sid : SessionId) (s : Session) → get inactive sid ≡ some s → IsKey sid × PeersAreKeys s)
      → IsReady p
      → IsReady (record p { active = active; inactive = inactive })
  put_sessions-IsReady p active inactive a i r = record {
    sync = record { exact = r.sync.exact; apart = r.sync.apart; distinct = r.sync.distinct };
    keys = record { active = a; inactive = i; pending = r.keys.pending; joined = r.keys.joined };
  }

  mapped :
      (f : Session → Session) (o : Option Session) (sid : SessionId) (s : Session)
      → ((x : Session) → o ≡ some x → IsKey sid × PeersAreKeys x)
      → ((x : Session) → PeersAreKeys x → PeersAreKeys (f x))
      → option_map f o ≡ some s
      → IsKey sid × PeersAreKeys s
  mapped f none sid s k g e = cc
  mapped f (some x) sid s k g e = ground (arith, k x refl, g x, e)

  -- A session is changed in place by a function that adds no other peers than keys.
  pub session_adjust-IsReady :
      (p : Pool) (sid : SessionId) (f : Session → Session)
      → ((x : Session) → PeersAreKeys x → PeersAreKeys (f x))
      → IsReady p
      → IsReady (session_adjust p sid f)
  unfolding session_adjust
  session_adjust-IsReady p sid f g r = elim (Option-cases (h.get p.active sid)) [
    | inr (sess, e) ↦
        rw (e, session_adjust)
          (put_sessions-IsReady p (h.adjust p.active sid f) p.inactive
            (λ j s q. elim (Bool-cases (sid == j)) [
              | inl b ↦
                  mapped f (h.get p.active j) j s (r.keys.active j) g
                    (rw (h.get-adjust p.active sid j f, b) at q)
              | inr b ↦ r.keys.active j s (rw (h.get-adjust p.active sid j f, b) at q)
            ])
            r.keys.inactive r)
    | inl n ↦
        rw (n, session_adjust)
          (put_sessions-IsReady p p.active (adjust p.inactive sid f) r.keys.active
            (λ j s q. elim (Bool-cases (sid == j)) [
              | inl b ↦
                  mapped f (get p.inactive j) j s (r.keys.inactive j) g
                    (rw (get-adjust p.inactive sid j f, b) at q)
              | inr b ↦ r.keys.inactive j s (rw (get-adjust p.inactive sid j f, b) at q)
            ])
            r)
  ]

  pub put_out-IsReady :
      (p : Pool) (out : List Effect) → IsReady p → IsReady (record p { out = out })
  put_out-IsReady p out r = record {
    sync = InSync-fields p (record p { out = out }) refl refl refl r.sync;
    keys = HasKeys-fields p (record p { out = out }) refl refl refl refl r.keys;
  }

  activity_inactive :
      (sid : SessionId) (ts now : ℕ) (p : Pool) (sess : Session)
      → IsKey sid
      → get p.inactive sid ≡ some sess
      → IsReady p
      → Returns IsReady (update_activity sid ts now p)
  unfolding update_activity
  activity_inactive sid ts now p sess key e r =
      let sess' : Session = record sess { status_timestamp = now } in
      let k' = r.keys.inactive sid sess e in
      let left : Pool =
        emit (incr active_sessions)
          (emit (decr inactive_sessions) (record p { inactive = remove p.inactive sid })) in
      let (out, f) = publish_status-EmitsOk sid active_status now left key in
      rw (e, update_activity, f)
        (put_out-IsReady _ out (
          put_sessions-IsReady p (h.insert p.active sid ts sess') (remove p.inactive sid)
            (λ j s q. ground (
              arith,
              h.get-insert p.active sid j ts sess',
              r.keys.active j s,
              q,
              k',
              string_eq.beq_iff sid j,
            ))
            (λ j s q. ground (arith, get-remove p.inactive sid j, r.keys.inactive j s, q)) r))

  activity_active :
      (sid : SessionId) (ts now : ℕ) (p : Pool) (sess : Session)
      → get p.inactive sid ≡ none
      → h.get (h.update_if_smaller p.active sid ts) sid ≡ some sess
      → IsReady p
      → Returns IsReady (update_activity sid ts now p)
  unfolding update_activity
  activity_active sid ts now p sess n e r =
      let later = h.update_if_smaller p.active sid ts in
      let touch = λ (s : Session). record s { status_timestamp = now } in
      rw (n, update_activity, e)
        (put_sessions-IsReady p (h.adjust later sid touch) p.inactive
          (λ j s q. elim (Bool-cases (sid == j)) [
            | inl b ↦
                mapped touch (h.get later j) j s
                  (λ x g. r.keys.active j x (rw (h.get-update_if_smaller p.active sid j ts) at g))
                  (λ x g. g) (rw (h.get-adjust later sid j touch, b) at q)
            | inr b ↦ r.keys.active j s (
                rw (h.get-adjust later sid j touch, b, h.get-update_if_smaller p.active sid j ts) at
                  q)
          ])
          r.keys.inactive r)

  activity_new :
      (sid : SessionId) (ts now : ℕ) (p : Pool)
      → IsKey sid
      → get p.inactive sid ≡ none
      → h.get (h.update_if_smaller p.active sid ts) sid ≡ none
      → IsReady p
      → Returns IsReady (update_activity sid ts now p)
  unfolding update_activity
  activity_new sid ts now p key n e r =
      let later = h.update_if_smaller p.active sid ts in
      let sess = new_session now in
      let added : Pool = record p { active = h.insert later sid ts sess } in
      let (out, f) = publish_status-EmitsOk sid active_status now added key in
      rw (n, update_activity, e, f)
        (put_out-IsReady _ _ (
          put_sessions-IsReady p (h.insert later sid ts sess) p.inactive
            (λ j s q.
              unfold new_session in
              ground (
                arith,
                h.get-insert later sid j ts sess,
                r.keys.active j s,
                q,
                key,
                h.get-update_if_smaller p.active sid j ts,
                string_eq.beq_iff sid j,
              ))
            r.keys.inactive r))

  -- `update_activity` does not panic and keeps the pool ready, if the session id is a lattice key.
  pub update_activity-IsReady :
      (sid : SessionId) (ts now : ℕ) (p : Pool)
      → IsKey sid
      → IsReady p
      → Returns IsReady (update_activity sid ts now p)
  update_activity-IsReady sid ts now p key r = elim (Option-cases (get p.inactive sid)) [
    | inr (sess, e) ↦ activity_inactive sid ts now p sess key e r
    | inl n ↦ elim (Option-cases (h.get (h.update_if_smaller p.active sid ts) sid)) [
      | inr (sess, e) ↦ activity_active sid ts now p sess n e r
      | inl e ↦ activity_new sid ts now p key n e r
    ]
  ]
