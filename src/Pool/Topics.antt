-- ===== src/Pool/Topics.antt =====
-- Topics of a session pool: `subscribe`, `unsubscribe` and `publish` of pool.rs.
use swindon.Prelude.{[], ◌∷◌, ◌++◌, Option, none, some, if◌then◌else◌, string_eq, nat_eq}
use swindon.World.{World}
use swindon.Timers.{Timers}
use swindon.Outcome.{Outcome, ok, ◌>>=◌, expect}
use swindon.Std.HashMap
use swindon.Std.HashMap.{HashMap, get, insert, remove}
use swindon.Std.HashSet
use swindon.Std.HashSet.{HashSet}
use swindon.Pool.Types.{
  Cid, Topic, Subscription, pending, session, ConnectionMessage, sent, incr, decr, Gauge,
  pubsub_input, pubsub_output, Session, Pool, emit,
}

module _ ⦃w : World⦄ ⦃h : Timers Session⦄ where
  -- `topics.entry(topic).or_insert_with(…).insert(cid, sub)`
  unfoldable pub add_subscription : Topic → Cid → Subscription → Pool → Pool
  add_subscription topic cid sub p = elim (get p.topics topic) [
    | some subs ↦ record p { topics = insert p.topics topic (insert subs cid sub) }
    | none ↦
        emit (incr Gauge.topics) (record p { topics = insert p.topics topic (insert [] cid sub) })
  ]

  unfoldable pub subscribe : Cid → Topic → Pool → Pool
  unfolding add_subscription
  subscribe cid topic p = elim (get p.connections cid) [
    | some conn ↦ add_subscription topic cid session (record p {
      connections =
          insert p.connections cid (record conn { topics = HashSet.insert conn.topics topic });
    })
    | none ↦ elim (get p.pending_connections cid) [
      | some conn ↦ add_subscription topic cid pending (record p {
        pending_connections =
            insert p.pending_connections cid
              (record conn { topics = HashSet.insert conn.topics topic });
      })
      | none ↦ p
    ]
  ]

  -- The function `unsubscribe` below the `impl`: what was stored, and the pool.
  unfoldable pub remove_subscription : Topic → Cid → Pool → Option Subscription × Pool
  remove_subscription topic cid p = elim (get p.topics topic) [
    | none ↦ (none, p)
    | some subs ↦
        let left = remove subs cid in
        (
          get subs cid,
          if HashMap.is_empty left
              then emit (decr Gauge.topics) (record p { topics = remove p.topics topic })
              else record p { topics = insert p.topics topic left },
        )
  ]

  unfoldable pub forget_topic : Topic → Cid → Option Subscription → Pool → Outcome Pool
  forget_topic topic cid none p = ok p
  forget_topic topic cid (some pending) p = do
    conn ← expect (get p.pending_connections cid)
    ok (record p {
      pending_connections =
          insert p.pending_connections cid
            (record conn { topics = HashSet.remove conn.topics topic });
    })
  forget_topic topic cid (some session) p = do
    conn ← expect (get p.connections cid)
    ok (record p {
      connections =
          insert p.connections cid (record conn { topics = HashSet.remove conn.topics topic });
    })

  -- `Pool::unsubscribe`
  unfoldable pub unsubscribe : Cid → Topic → Pool → Outcome Pool
  unfolding remove_subscription forget_topic
  unsubscribe cid topic p =
      let (left, p') = remove_subscription topic cid p in forget_topic topic cid left p'

  -- One round of the loop of `publish`.
  unfoldable pub deliver : Topic → w.Json → Cid → Subscription → Pool → Outcome Pool
  deliver topic value cid pending p = do
    conn ← expect (get p.pending_connections cid)
    ok (record p {
      pending_connections =
          insert p.pending_connections cid
            (record conn { message_buffer = conn.message_buffer ++ (topic, value) ∷ [] });
    })
  deliver topic value cid session p = do
    conn ← expect (get p.connections cid)
    ok (emit (sent conn.channel (ConnectionMessage.publish topic value)) p)

  unfoldable pub publish_loop : Topic → w.Json → HashMap Cid Subscription → Pool → Outcome Pool
  unfolding deliver
  publish_loop topic value [] p = ok p
  publish_loop topic value ((cid, typ) ∷ cids) p = do
    p' ← deliver topic value cid typ (emit (incr pubsub_output) p)
    publish_loop topic value cids p'

  unfoldable pub publish : Topic → w.Json → Pool → Outcome Pool
  unfolding publish_loop
  publish topic value p = elim (get p.topics topic) [
    | none ↦ ok (emit (incr pubsub_input) p)
    | some cids ↦ publish_loop topic value cids (emit (incr pubsub_input) p)
  ]
