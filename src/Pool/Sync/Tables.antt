-- ===== src/Pool/Sync/Tables.antt =====
-- What a pool's topic table holds, against the topics that its connections list.
use swindon.Prelude.{
  ◌≡◌, ◌==◌, false, ◌&&◌, [], Option, none, some, arith, if◌then◌else◌, string_eq, nat_eq,
  unwrap_or, is_some, Option-cases, inl, inr,
}
use swindon.World.{World}
use swindon.Timers.{Timers}
use swindon.Std.HashMap.{
  HashMap, get, insert, remove, get-insert, get-remove, IsDistinct, insert-IsDistinct,
  remove-IsDistinct,
}
use swindon.Std.HashSet.{contains}
use swindon.Pool.Types.{
  Cid, Topic, Subscription, pending, session, Session, NewConnection, Connection, Pool,
}
use swindon.Pool.Topics.{add_subscription, remove_subscription}

module _ ⦃w : World⦄ where
  -- The subscription that a connection's own list of topics asks for.
  abbrev pub expected : Option NewConnection → Option Connection → Topic → Option Subscription
  expected (some conn) _ t = if contains conn.topics t then some pending else none
  expected none (some conn) t = if contains conn.topics t then some session else none
  expected none none t = none

module _ ⦃w : World⦄ ⦃h : Timers Session⦄ where
  abbrev pub subs_of : Pool → Topic → HashMap Cid Subscription
  subs_of p t = unwrap_or (get p.topics t) []

  abbrev pub subscription : Pool → Topic → Cid → Option Subscription
  subscription p t c = get (subs_of p t) c

  -- The table lists exactly what the connections list, no connection is both pending and
  -- associated, and the table lists no connection twice.
  pub record InSync (p : Pool) : Type 0 where
    pub exact :
        (t : Topic) (c : Cid)
        → subscription p t c ≡ expected (get p.pending_connections c) (get p.connections c) t
    pub apart :
        (c : Cid) → is_some (get p.pending_connections c) && is_some (get p.connections c) ≡ false
    pub distinct : (t : Topic) → IsDistinct (subs_of p t)

  pub subscription-add :
      (topic t : Topic) (cid c : Cid) (sub : Subscription) (p : Pool)
      → subscription (add_subscription topic cid sub p) t c
        ≡ (if (topic == t) && (cid == c) then some sub else subscription p t c)
  unfolding add_subscription
  subscription-add topic t cid c sub p = elim (Option-cases (get p.topics topic)) [
    | inl e ↦ ground (
      arith,
      e,
      string_eq.beq_iff topic t,
      get-insert p.topics topic t (insert [] cid sub),
      get-insert {V = Subscription} [] cid c sub,
    )
    | inr (s, e) ↦ ground (
      arith,
      e,
      string_eq.beq_iff topic t,
      get-insert p.topics topic t (insert s cid sub),
      get-insert s cid c sub,
    )
  ]

  pub subscription-remove :
      (topic t : Topic) (cid c : Cid) (p : Pool)
      → ((remove_subscription topic cid p).0 ≡ subscription p topic cid)
        × (subscription (remove_subscription topic cid p).1 t c
            ≡ (if (topic == t) && (cid == c) then none else subscription p t c))
  unfolding remove_subscription get
  subscription-remove topic t cid c p = elim (Option-cases (get p.topics topic)) [
    | inl e ↦ ground (arith, e, string_eq.beq_iff topic t)
    | inr (s, e) ↦
        let left = remove s cid in
        ground (
          arith,
          e,
          string_eq.beq_iff topic t,
          get-insert p.topics topic t left,
          get-remove p.topics topic t,
          get-remove s cid c,
        )
  ]

  pub subs_of-add-IsDistinct :
      (topic t : Topic) (cid : Cid) (sub : Subscription) (p : Pool)
      → ((u : Topic) → IsDistinct (subs_of p u))
      → IsDistinct (subs_of (add_subscription topic cid sub p) t)
  unfolding add_subscription get
  subs_of-add-IsDistinct topic t cid sub p d = elim (Option-cases (get p.topics topic)) [
    | inl e ↦ ground (
      arith,
      e,
      d t,
      string_eq.beq_iff topic t,
      get-insert p.topics topic t (insert [] cid sub),
      insert-IsDistinct {V = Subscription} [] cid sub tt,
    )
    | inr (s, e) ↦
        let ds : IsDistinct s = rw e at (d topic) in
        ground (
          arith,
          e,
          d t,
          string_eq.beq_iff topic t,
          get-insert p.topics topic t (insert s cid sub),
          insert-IsDistinct s cid sub ds,
        )
  ]

  pub subs_of-remove-IsDistinct :
      (topic t : Topic) (cid : Cid) (p : Pool)
      → ((u : Topic) → IsDistinct (subs_of p u))
      → IsDistinct (subs_of (remove_subscription topic cid p).1 t)
  unfolding remove_subscription get
  subs_of-remove-IsDistinct topic t cid p d = elim (Option-cases (get p.topics topic)) [
    | inl e ↦ ground (arith, e, d t)
    | inr (s, e) ↦
        let ds : IsDistinct s = rw e at (d topic) in
        let left = remove s cid in
        ground (
          arith,
          e,
          d t,
          string_eq.beq_iff topic t,
          get-insert p.topics topic t left,
          get-remove p.topics topic t,
          remove-IsDistinct s cid ds,
        )
  ]

  -- The connections are as they were.
  pub remove_subscription_frame :
      (topic : Topic) (cid : Cid) (p : Pool)
      → let q = (remove_subscription topic cid p).1 in
        (q.pending_connections ≡ p.pending_connections) × (q.connections ≡ p.connections)
  unfolding remove_subscription
  remove_subscription_frame topic cid p = ground arith

  pub add_subscription_frame :
      (topic : Topic) (cid : Cid) (sub : Subscription) (p : Pool)
      → let q = add_subscription topic cid sub p in
        (q.pending_connections ≡ p.pending_connections) × (q.connections ≡ p.connections)
  unfolding add_subscription
  add_subscription_frame topic cid sub p = ground arith
