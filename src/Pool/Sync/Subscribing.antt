-- ===== src/Pool/Sync/Subscribing.antt =====
-- `subscribe` and `unsubscribe` of chat/processor/pool.rs, and the topic table.
use swindon.Prelude.{
  ◌≡◌, refl, Option, none, some, arith, string_eq, nat_eq, Option-cases, inl, inr, ap, ◌∙◌,
}
use swindon.World.{World}
use swindon.Timers.{Timers}
use swindon.Outcome.{Returns}
use swindon.Std.HashMap.{get, insert, get-insert}
use swindon.Std.HashSet
use swindon.Std.HashSet.{HashSet, contains, contains-insert, contains-remove}
use swindon.Pool.Types.{
  Cid, Topic, Subscription, pending, session, Session, NewConnection, Connection, Pool,
}
use swindon.Pool.Topics.{remove_subscription, subscribe, unsubscribe, forget_topic}
use swindon.Pool.Sync.Tables.{
  subscription, InSync, subscription-add, subscription-remove, subs_of-add-IsDistinct,
  subs_of-remove-IsDistinct, add_subscription_frame, remove_subscription_frame,
}

module _ ⦃w : World⦄ ⦃h : Timers Session⦄ where
  subscribe_session-InSync :
      (cid : Cid) (topic : Topic) (p : Pool) (conn : Connection)
      → get p.connections cid ≡ some conn
      → InSync p
      → InSync (subscribe cid topic p)
  unfolding subscribe
  subscribe_session-InSync cid topic p conn e s =
      let conn' : Connection = record conn { topics = HashSet.insert conn.topics topic } in
      let p' : Pool = record p { connections = insert p.connections cid conn' } in
      rw (e, subscribe)
        (record {
          exact = λ t c. ground (
            arith,
            add_subscription_frame topic cid session p',
            subscription-add topic t cid c session p',
            get-insert p.connections cid c conn',
            contains-insert conn.topics topic t,
            s.exact t c,
            s.apart c,
            e,
          );
          apart = λ c. ground (
            arith,
            add_subscription_frame topic cid session p',
            get-insert p.connections cid c conn',
            s.apart c,
            e,
          );
          distinct = λ t. subs_of-add-IsDistinct topic t cid session p' s.distinct;
        })

  subscribe_pending-InSync :
      (cid : Cid) (topic : Topic) (p : Pool) (conn : NewConnection)
      → get p.connections cid ≡ none
      → get p.pending_connections cid ≡ some conn
      → InSync p
      → InSync (subscribe cid topic p)
  unfolding subscribe
  subscribe_pending-InSync cid topic p conn absent e s =
      let conn' : NewConnection = record conn { topics = HashSet.insert conn.topics topic } in
      let p' : Pool = record p { pending_connections = insert p.pending_connections cid conn' } in
      rw (absent, e, subscribe)
        (record {
          exact = λ t c. ground (
            arith,
            add_subscription_frame topic cid pending p',
            subscription-add topic t cid c pending p',
            get-insert p.pending_connections cid c conn',
            contains-insert conn.topics topic t,
            s.exact t c,
            s.apart c,
            e,
            absent,
          );
          apart = λ c. ground (
            arith,
            add_subscription_frame topic cid pending p',
            get-insert p.pending_connections cid c conn',
            s.apart c,
            e,
          );
          distinct = λ t. subs_of-add-IsDistinct topic t cid pending p' s.distinct;
        })

  -- `subscribe` keeps the topic table and the connections' own lists of topics in step, whether the
  -- connection is associated, pending or unknown.
  pub subscribe-InSync :
      (cid : Cid) (topic : Topic) (p : Pool) → InSync p → InSync (subscribe cid topic p)
  unfolding subscribe
  subscribe-InSync cid topic p s = elim (Option-cases (get p.connections cid)) [
    | inr (conn, e) ↦ subscribe_session-InSync cid topic p conn e s
    | inl absent ↦ elim (Option-cases (get p.pending_connections cid)) [
      | inr (conn, e) ↦ subscribe_pending-InSync cid topic p conn absent e s
      | inl e ↦ rw (absent, e, subscribe) s
    ]
  ]

  forget_session-InSync :
      (cid : Cid) (topic : Topic) (p : Pool) (conn : Connection)
      → get p.connections cid ≡ some conn
      → InSync p
      → let q = (remove_subscription topic cid p).1 in
        InSync (record q {
          connections =
              insert q.connections cid (record conn { topics = HashSet.remove conn.topics topic });
        })
  forget_session-InSync cid topic p conn e s =
      let conn' : Connection = record conn { topics = HashSet.remove conn.topics topic } in
      record {
        exact = λ t c. ground (
          arith,
          remove_subscription_frame topic cid p,
          subscription-remove topic t cid c p,
          get-insert p.connections cid c conn',
          contains-remove conn.topics topic t,
          s.exact t c,
          s.apart c,
          e,
        );
        apart = λ c. ground (
          arith,
          remove_subscription_frame topic cid p,
          get-insert p.connections cid c conn',
          s.apart c,
          e,
        );
        distinct = λ t. subs_of-remove-IsDistinct topic t cid p s.distinct;
      }

  forget_pending-InSync :
      (cid : Cid) (topic : Topic) (p : Pool) (conn : NewConnection)
      → get p.pending_connections cid ≡ some conn
      → InSync p
      → let q = (remove_subscription topic cid p).1 in
        InSync (record q {
          pending_connections =
              insert q.pending_connections cid
                (record conn { topics = HashSet.remove conn.topics topic });
        })
  forget_pending-InSync cid topic p conn e s =
      let conn' : NewConnection = record conn { topics = HashSet.remove conn.topics topic } in
      record {
        exact = λ t c. ground (
          arith,
          remove_subscription_frame topic cid p,
          subscription-remove topic t cid c p,
          get-insert p.pending_connections cid c conn',
          contains-remove conn.topics topic t,
          s.exact t c,
          s.apart c,
          e,
        );
        apart = λ c. ground (
          arith,
          remove_subscription_frame topic cid p,
          get-insert p.pending_connections cid c conn',
          s.apart c,
          e,
        );
        distinct = λ t. subs_of-remove-IsDistinct topic t cid p s.distinct;
      }

  forget_none-InSync :
      (cid : Cid) (topic : Topic) (p : Pool)
      → subscription p topic cid ≡ none
      → InSync p
      → InSync (remove_subscription topic cid p).1
  forget_none-InSync cid topic p e s = record {
    exact = λ t c. ground (
      arith,
      remove_subscription_frame topic cid p,
      subscription-remove topic t cid c p,
      string_eq.beq_iff topic t,
      s.exact t c,
      e,
    );
    apart = λ c. ground (arith, remove_subscription_frame topic cid p, s.apart c);
    distinct = λ t. subs_of-remove-IsDistinct topic t cid p s.distinct;
  }

  -- A stored subscription belongs to a connection of its kind.
  pub pending_exists :
      (p : Pool) (t : Topic) (c : Cid)
      → InSync p
      → subscription p t c ≡ some pending
      → (conn : NewConnection) × (get p.pending_connections c ≡ some conn)
  pending_exists p t c s e = ground (arith, s.exact t c, e)

  pub session_exists :
      (p : Pool) (t : Topic) (c : Cid)
      → InSync p
      → subscription p t c ≡ some session
      → (conn : Connection) × (get p.connections c ≡ some conn)
  session_exists p t c s e = ground (arith, s.exact t c, e)

  -- `unsubscribe` never meets its `expect`, and keeps the tables in step.
  pub unsubscribe-InSync :
      (cid : Cid) (topic : Topic) (p : Pool) → InSync p → Returns InSync (unsubscribe cid topic p)
  unfolding unsubscribe forget_topic
  unsubscribe-InSync cid topic p s = by_sub (subscription p topic cid) refl
    where
      by_sub :
          (o : Option Subscription)
          → subscription p topic cid ≡ o
          → Returns InSync (unsubscribe cid topic p)
      by_sub none e =
          rw ((subscription-remove topic topic cid cid p).0, e, unsubscribe)
            (forget_none-InSync cid topic p e s)
      by_sub (some pending) e =
          let (conn, f) = pending_exists p topic cid s e in
          let kept = ap (λ m. get m cid) (remove_subscription_frame topic cid p).0 ∙ f in
          rw ((subscription-remove topic topic cid cid p).0, e, unsubscribe, kept)
            (forget_pending-InSync cid topic p conn f s)
      by_sub (some session) e =
          let (conn, f) = session_exists p topic cid s e in
          let kept = ap (λ m. get m cid) (remove_subscription_frame topic cid p).1 ∙ f in
          rw ((subscription-remove topic topic cid cid p).0, e, unsubscribe, kept)
            (forget_session-InSync cid topic p conn f s)
