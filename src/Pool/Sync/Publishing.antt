-- ===== src/Pool/Sync/Publishing.antt =====
-- `publish` of chat/processor/pool.rs: who receives a message.
use swindon.Prelude.{
  ℕ, ◌≡◌, refl, ◌==◌, Bool, true, List, [], ◌∷◌, ◌++◌, Option, none, some, arith, if◌then◌else◌,
  string_eq, nat_eq, is_some, Option-cases, inl, inr, ◌∙◌, option_map,
}
use swindon.World.{World}
use swindon.Timers.{Timers}
use swindon.Outcome.{Returns, Returns-imp, Returns->>=}
use swindon.Std.HashMap.{HashMap, get, get-insert, IsDistinct}
use swindon.Pool.Types.{
  Cid, Topic, Subscription, pending, session, ConnectionMessage, Effect, sent, incr, pubsub_output,
  pubsub_input, Session, NewConnection, Connection, Pool, emit,
}
use swindon.Pool.Topics.{deliver, publish_loop, publish}
use swindon.Pool.Sync.Tables.{subs_of, subscription, InSync}

module _ ⦃w : World⦄ ⦃h : Timers Session⦄ where
  -- The messages that were sent on a channel, newest first.
  abbrev pub sent_on : ℕ → List Effect → List ConnectionMessage
  sent_on ch [] = []
  sent_on ch (sent c msg ∷ out) = let rest = sent_on ch out in if c == ch then msg ∷ rest else rest
  sent_on ch (_ ∷ out) = sent_on ch out

  -- A pending connection with a subscription buffers the message.
  abbrev pub buffered : Topic → w.Json → Option Subscription → NewConnection → NewConnection
  buffered topic value (some pending) conn = record conn {
    message_buffer = conn.message_buffer ++ (topic, value) ∷ [];
  }
  buffered topic value _ conn = conn

  -- Only this connection writes on its channel.
  abbrev pub IsAlone : HashMap Cid Connection → Cid → Connection → Type 0
  IsAlone conns c conn =
      (get conns c ≡ some conn)
      × ((d : Cid) (other : Connection)
          → get conns d ≡ some other
          → other.channel ≡ conn.channel
          → d ≡ c)

  -- What an associated connection was sent, once the message was published.
  abbrev pub received :
      Topic → w.Json → Option Subscription → List ConnectionMessage → List ConnectionMessage
  received topic value (some session) old = ConnectionMessage.publish topic value ∷ old
  received topic value _ old = old

  pub record Delivered (topic : Topic) (value : w.Json) (subs : HashMap Cid Subscription)
      (p q : Pool) : Type 0 where
    pub topics : q.topics ≡ p.topics
    pub connections : q.connections ≡ p.connections
    pub active : q.active ≡ p.active
    pub inactive : q.inactive ≡ p.inactive
    pub buffers :
        (c : Cid)
        → get q.pending_connections c
          ≡ option_map (buffered topic value (get subs c)) (get p.pending_connections c)
    pub messages :
        (c : Cid) (conn : Connection)
        → IsAlone p.connections c conn
        → sent_on conn.channel q.out
          ≡ received topic value (get subs c) (sent_on conn.channel p.out)

  -- Every subscription of a list belongs to a connection of its kind.
  abbrev present : Pool → Cid → Subscription → Bool
  present p c pending = is_some (get p.pending_connections c)
  present p c session = is_some (get p.connections c)

  deliver_session :
      (topic : Topic) (value : w.Json) (cid : Cid) (p : Pool) (other : Connection)
      → get p.connections cid ≡ some other
      → (c : Cid) (conn : Connection) → IsAlone p.connections c conn
      → (if other.channel == conn.channel
          then ConnectionMessage.publish topic value ∷ sent_on conn.channel p.out
          else sent_on conn.channel p.out)
        ≡ received topic value
            (if cid == c then some session else none)
            (sent_on conn.channel p.out)
  deliver_session topic value cid p other e c conn a = ground (arith, e, a.0, a.1 cid other e)

  deliver_lem :
      (topic : Topic) (value : w.Json) (cid : Cid) (typ : Subscription) (p : Pool)
      → present p cid typ ≡ true
      → Returns
          (Delivered topic value ((cid, typ) ∷ []) p)
          (deliver topic value cid typ (emit (incr pubsub_output) p))
  unfolding deliver get
  deliver_lem topic value cid pending p e = elim (Option-cases (get p.pending_connections cid)) [
    | inl f ↦ absurd (ground (arith, e, f))
    | inr (conn, f) ↦
        rw (f, deliver)
          (record {
            topics = refl;
            connections = refl;
            active = refl;
            inactive = refl;
            buffers = λ c. ground (
              arith,
              f,
              get-insert p.pending_connections cid c (buffered topic value (some pending) conn),
            );
            messages = λ c conn a. ground arith;
          })
  ]
  deliver_lem topic value cid session p e = elim (Option-cases (get p.connections cid)) [
    | inl f ↦ absurd (ground (arith, e, f))
    | inr (other, f) ↦
        rw (f, deliver)
          (record {
            topics = refl;
            connections = refl;
            active = refl;
            inactive = refl;
            buffers = λ c. ground arith;
            messages = λ c conn a. deliver_session topic value cid p other f c conn a;
          })
  ]

  Delivered-cons :
      (topic : Topic) (value : w.Json) (cid : Cid) (typ : Subscription)
      (subs : HashMap Cid Subscription) (p r q : Pool)
      → get subs cid ≡ none
      → Delivered topic value ((cid, typ) ∷ []) p r
      → Delivered topic value subs r q
      → Delivered topic value ((cid, typ) ∷ subs) p q
  unfolding get
  Delivered-cons topic value cid typ subs p r q n one rest = record {
    topics = rest.topics ∙ one.topics;
    connections = rest.connections ∙ one.connections;
    active = rest.active ∙ one.active;
    inactive = rest.inactive ∙ one.inactive;
    buffers = λ c. ground (arith, n, one.buffers c, rest.buffers c);
    messages = λ c conn a.
        ground (arith, n, one.messages c conn a, rest.messages c conn (rw one.connections a));
  }

  publish_loop_lem :
      (topic : Topic) (value : w.Json) (subs : HashMap Cid Subscription) (p : Pool)
      → IsDistinct subs
      → ((c : Cid) (typ : Subscription) → get subs c ≡ some typ → present p c typ ≡ true)
      → Returns (Delivered topic value subs p) (publish_loop topic value subs p)
  unfolding publish_loop get
  publish_loop_lem topic value [] p d k = record {
    topics = refl;
    connections = refl;
    active = refl;
    inactive = refl;
    buffers = λ c. ground arith;
    messages = λ c conn a. refl;
  }
  publish_loop_lem topic value ((cid, typ) ∷ subs) p d k =
      Returns->>= (Delivered topic value ((cid, typ) ∷ []) p)
        (Delivered topic value ((cid, typ) ∷ subs) p)
        (deliver topic value cid typ (emit (incr pubsub_output) p)) (publish_loop topic value subs)
        (deliver_lem topic value cid typ p (k cid typ (ground arith)))
        λ r one.
          Returns-imp (Delivered topic value subs r) (Delivered topic value ((cid, typ) ∷ subs) p)
            (publish_loop topic value subs r)
            (λ q rest. Delivered-cons topic value cid typ subs p r q d.0 one rest)
            (publish_loop_lem topic value subs r d.1
              (λ c t e. ground (arith, k c t, one.buffers c, one.connections, e, d.0)))

  Delivered-InSync :
      (topic : Topic) (value : w.Json) (subs : HashMap Cid Subscription) (p q : Pool)
      → InSync p
      → Delivered topic value subs p q
      → InSync q
  Delivered-InSync topic value subs p q s d = record {
    exact = λ t c. ground (arith, d.topics, d.connections, d.buffers c, s.exact t c);
    apart = λ c. ground (arith, d.connections, d.buffers c, s.apart c);
    distinct = λ t. rw d.topics (s.distinct t);
  }

  sub_present :
      (p : Pool) (t : Topic) (c : Cid) (typ : Subscription)
      → InSync p
      → subscription p t c ≡ some typ
      → present p c typ ≡ true
  sub_present p t c pending s e = ground (arith, s.exact t c, e)
  sub_present p t c session s e = ground (arith, s.exact t c, e)

  -- While the tables are in step, `publish` does not panic. Each pending connection with a
  -- subscription to the topic has the message appended to its buffer, each associated connection
  -- with one that no other shares its channel with has the message sent to it once, all other
  -- connections get nothing, and the tables stay in step.
  pub publish-Delivered :
      (topic : Topic) (value : w.Json) (p : Pool)
      → InSync p
      → Returns
          (λ q. Delivered topic value (subs_of p topic) p q × InSync q)
          (publish topic value p)
  unfolding publish
  publish-Delivered topic value p s = elim (Option-cases (get p.topics topic)) [
    | inl e ↦
        let d : Delivered topic value [] p (emit (incr pubsub_input) p) = record {
          topics = refl;
          connections = refl;
          active = refl;
          inactive = refl;
          buffers = λ c. unfold get in ground arith;
          messages = λ c conn a. unfold get in refl;
        } in
        rw (e, publish) (d, Delivered-InSync topic value [] p _ s d)
    | inr (subs, e) ↦
        rw (e, publish)
          (Returns-imp (Delivered topic value subs p)
            (λ q. Delivered topic value subs p q × InSync q)
            (publish_loop topic value subs (emit (incr pubsub_input) p))
            (λ q d. (d, Delivered-InSync topic value subs p q s d))
            (Returns-imp (Delivered topic value subs (emit (incr pubsub_input) p))
              (Delivered topic value subs p)
              (publish_loop topic value subs (emit (incr pubsub_input) p))
              (λ q d. record {
                topics = d.topics;
                connections = d.connections;
                active = d.active;
                inactive = d.inactive;
                buffers = d.buffers;
                messages = d.messages;
              })
              (publish_loop_lem topic value subs (emit (incr pubsub_input) p)
                (rw e at (s.distinct topic)) λ c typ f. sub_present p topic c typ s (rw e f))))
  ]
