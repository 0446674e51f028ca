-- ===== src/Pool/Ready/Topics.antt =====
-- Readiness and the topic operations of chat/processor/pool.rs.
use swindon.Prelude.{
  ◌≡◌, refl, Option, none, some, arith, All, string_eq, nat_eq, Option-cases, inl, inr, ◌∙◌, sym,
  option_map,
}
use swindon.World.{World}
use swindon.Timers.{Timers}
use swindon.Outcome.{Returns, Returns-×, Returns-imp}
use swindon.Std.HashMap.{HashMap, get, insert, get-insert}
use swindon.Pool.Types.{
  Cid, Topic, Subscription, pending, session, Session, NewConnection, Connection, Pool,
}
use swindon.Pool.Topics.{
  add_subscription, remove_subscription, subscribe, unsubscribe, forget_topic, publish,
}
use swindon.Pool.Frames.{IsKey}
use swindon.Pool.Keys.{HasKeys}
use swindon.Pool.Sync.Tables.{InSync, subs_of}
use swindon.Pool.Sync.Subscribing.{subscribe-InSync, unsubscribe-InSync}
use swindon.Pool.Sync.Publishing.{Delivered, buffered, publish-Delivered}
use swindon.Pool.Sync.Associating.{IsReady}

module _ ⦃w : World⦄ ⦃h : Timers Session⦄ where
  -- The keys matter to four fields, and there to the ids alone.
  pub HasKeys-fields :
      (p q : Pool)
      → q.active ≡ p.active
      → q.inactive ≡ p.inactive
      → q.pending_connections ≡ p.pending_connections
      → q.connections ≡ p.connections
      → HasKeys p
      → HasKeys q
  HasKeys-fields p q a i n c k = record {
    active = rw a k.active;
    inactive = rw i k.inactive;
    pending = rw n k.pending;
    joined = rw c k.joined;
  }

  add_subscription-HasKeys :
      (topic : Topic) (cid : Cid) (sub : Subscription) (p : Pool)
      → HasKeys p
      → HasKeys (add_subscription topic cid sub p)
  unfolding add_subscription
  add_subscription-HasKeys topic cid sub p k =
      HasKeys-fields p (add_subscription topic cid sub p) (ground arith) (ground arith)
        (ground arith) (ground arith) k

  remove_subscription-HasKeys :
      (topic : Topic) (cid : Cid) (p : Pool)
      → HasKeys p
      → HasKeys (remove_subscription topic cid p).1
  unfolding remove_subscription
  remove_subscription-HasKeys topic cid p k =
      HasKeys-fields p (remove_subscription topic cid p).1 (ground arith) (ground arith)
        (ground arith) (ground arith) k

  -- A pending connection is replaced by one with the same users, a joined one by one of the same
  -- session.
  pub put_pending-HasKeys :
      (p : Pool) (cid : Cid) (conn : NewConnection)
      → All IsKey conn.users_lattice
      → HasKeys p
      → HasKeys (record p { pending_connections = insert p.pending_connections cid conn })
  put_pending-HasKeys p cid conn u k = record {
    active = k.active;
    inactive = k.inactive;
    pending =
        λ c n e. ground (arith, get-insert p.pending_connections cid c conn, k.pending c n, e, u);
    joined = k.joined;
  }

  pub put_joined-HasKeys :
      (p : Pool) (cid : Cid) (conn : Connection)
      → IsKey conn.session_id
      → HasKeys p
      → HasKeys (record p { connections = insert p.connections cid conn })
  put_joined-HasKeys p cid conn u k = record {
    active = k.active;
    inactive = k.inactive;
    pending = k.pending;
    joined = λ c n e. ground (arith, get-insert p.connections cid c conn, k.joined c n, e, u);
  }

  pub subscribe-IsReady :
      (cid : Cid) (topic : Topic) (p : Pool) → IsReady p → IsReady (subscribe cid topic p)
  unfolding subscribe
  subscribe-IsReady cid topic p r = record {
    sync = subscribe-InSync cid topic p r.sync;
    keys = keys;
  }
    where
      keys : HasKeys (subscribe cid topic p)
      keys = elim (Option-cases (get p.connections cid)) [
        | inr (conn, e) ↦
            rw (e, subscribe)
              (add_subscription-HasKeys topic cid session _
                (put_joined-HasKeys p cid _ (r.keys.joined cid conn e) r.keys))
        | inl n ↦ elim (Option-cases (get p.pending_connections cid)) [
          | inr (conn, e) ↦
              rw (n, e, subscribe)
                (add_subscription-HasKeys topic cid pending _
                  (put_pending-HasKeys p cid _ (r.keys.pending cid conn e) r.keys))
          | inl e ↦ rw (n, e, subscribe) r.keys
        ]
      ]

  forget_topic-HasKeys :
      (topic : Topic) (cid : Cid) (o : Option Subscription) (p : Pool)
      → HasKeys p
      → Returns InSync (forget_topic topic cid o p)
      → Returns HasKeys (forget_topic topic cid o p)
  unfolding forget_topic
  forget_topic-HasKeys topic cid none p k s = k
  forget_topic-HasKeys topic cid (some pending) p k s =
      elim (Option-cases (get p.pending_connections cid)) [
        | inl e ↦ absurd (rw (e, forget_topic) at s)
        | inr (conn, e) ↦
            rw (e, forget_topic) (put_pending-HasKeys p cid _ (k.pending cid conn e) k)
      ]
  forget_topic-HasKeys topic cid (some session) p k s =
      elim (Option-cases (get p.connections cid)) [
        | inl e ↦ absurd (rw (e, forget_topic) at s)
        | inr (conn, e) ↦ rw (e, forget_topic) (put_joined-HasKeys p cid _ (k.joined cid conn e) k)
      ]

  pub unsubscribe-IsReady :
      (cid : Cid) (topic : Topic) (p : Pool) → IsReady p → Returns IsReady (unsubscribe cid topic p)
  unfolding unsubscribe
  unsubscribe-IsReady cid topic p r =
      let s = unsubscribe-InSync cid topic p r.sync in
      let (o, q) = remove_subscription topic cid p in
      let k =
        forget_topic-HasKeys topic cid o q (remove_subscription-HasKeys topic cid p r.keys) s in
      Returns-imp (λ q. InSync q × HasKeys q) IsReady (unsubscribe cid topic p)
        (λ q b. record { sync = b.0; keys = b.1 })
        (Returns-× InSync HasKeys (unsubscribe cid topic p) s k)

  Delivered-HasKeys :
      (topic : Topic) (value : w.Json) (subs : HashMap Cid Subscription) (p q : Pool)
      → Delivered topic value subs p q
      → HasKeys p
      → HasKeys q
  Delivered-HasKeys topic value subs p q d k = record {
    active = rw d.active k.active;
    inactive = rw d.inactive k.inactive;
    pending = λ c n e. users c n (get p.pending_connections c) refl (sym (d.buffers c) ∙ e);
    joined = rw d.connections k.joined;
  }
    where
      users :
          (c : Cid) (n : NewConnection) (o : Option NewConnection)
          → get p.pending_connections c ≡ o
          → option_map (buffered topic value (get subs c)) o ≡ some n
          → All IsKey n.users_lattice
      users c n none e f = cc
      users c n (some m) e f = ground (arith, k.pending c m e, f)

  pub publish-IsReady :
      (topic : Topic) (value : w.Json) (p : Pool)
      → IsReady p
      → Returns IsReady (publish topic value p)
  publish-IsReady topic value p r =
      Returns-imp (λ q. Delivered topic value (subs_of p topic) p q × InSync q) IsReady
        (publish topic value p)
        (λ q b. record {
          sync = b.1;
          keys = Delivered-HasKeys topic value (subs_of p topic) p q b.0 r.keys;
        })
        (publish-Delivered topic value p r.sync)
