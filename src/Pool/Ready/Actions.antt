-- ===== src/Pool/Ready/Actions.antt =====
-- The events that a pool accepts, and the pools that they lead to: the match of
-- chat/processor/main.rs as steps.
use swindon.Prelude.{
  ℕ, Bool, ◌≡◌, refl, true, Option, none, ◌||◌, is_some, arith, All, nat_eq, string_eq, subst,
}
use swindon.World.{World}
use swindon.Timers.{Timers}
use swindon.Outcome.{ok, Returns}
use swindon.Std.HashMap.{get}
use swindon.Pool.Types.{Session, Pool, new_pool}
use swindon.Pool.Activity.{cleanup}
use swindon.Pool.Actions.{
  Action, pool_action, new_session_pool, stop_session_pool, new_connection, associate,
  update_activity, disconnect, subscribe, unsubscribe, publish, attach, lattice, detach,
  attach_users, update_users, detach_users,
}
use swindon.Pool.Frames.{IsKey}
use swindon.Pool.Sync.Associating.{
  IsReady, LatticesExist, add_connection-IsReady, associate-IsReady,
}
use swindon.Pool.Sync.Leaving.{del_connection-IsReady}
use swindon.Pool.Ready.Topics.{subscribe-IsReady, unsubscribe-IsReady, publish-IsReady}
use swindon.Pool.Ready.Sessions.{update_activity-IsReady}
use swindon.Pool.Ready.Lattices.{lattice_attach-IsReady, lattice_detach-IsReady}
use swindon.Pool.Ready.Updates.{lattice_update-IsReady}
use swindon.Pool.Ready.Users.{users_attach-IsReady, users_update-IsReady, users_detach-IsReady}
use swindon.Pool.Ready.Cleanup.{Cleaned, cleanup-open, cleanup-Cleaned}

module _ ⦃w : World⦄ ⦃h : Timers Session⦄ where
  -- What the senders of an event have to see to: connection ids are fresh and not disconnected
  -- twice, session ids can be lattice keys, and a connection is not associated before the lattices
  -- that it is attached to were updated.
  unfoldable pub Accepts : Pool → Action → Type 0
  Accepts p (new_session_pool timeout) = ⊥
  Accepts p stop_session_pool = ⊥
  Accepts p (new_connection cid channel) =
      (get p.pending_connections cid ≡ none) × (get p.connections cid ≡ none)
  Accepts p (associate cid sid metadata) = IsKey sid × LatticesExist p cid
  Accepts p (update_activity sid timestamp) = IsKey sid
  Accepts p (disconnect cid) =
      is_some (get p.pending_connections cid) || is_some (get p.connections cid) ≡ true
  Accepts p (subscribe cid topic) = Unit
  Accepts p (unsubscribe cid topic) = Unit
  Accepts p (publish topic value) = Unit
  Accepts p (attach ns cid) = Unit
  Accepts p (lattice ns delta) = Unit
  Accepts p (detach ns cid) = Unit
  Accepts p (attach_users cid uids) = All IsKey uids
  Accepts p (update_users sid uids) = All IsKey uids
  Accepts p (detach_users cid) = Unit

  -- Every event that a ready pool accepts is handled without a panic, and leaves a ready pool.
  pub pool_action-IsReady :
      (action : Action) (ts now : ℕ) (p : Pool)
      → Accepts p action
      → IsReady p
      → Returns IsReady (pool_action p ts now action)
  unfolding pool_action Accepts
  pool_action-IsReady (new_session_pool timeout) ts now p a r = absurd a
  pool_action-IsReady stop_session_pool ts now p a r = absurd a
  pool_action-IsReady (new_connection cid channel) ts now p (a, b) r =
      add_connection-IsReady cid channel p a b r
  pool_action-IsReady (associate cid sid metadata) ts now p (k, l) r =
      associate-IsReady cid sid ts now metadata p r k l
  pool_action-IsReady (update_activity sid timestamp) ts now p k r =
      update_activity-IsReady sid timestamp now p k r
  pool_action-IsReady (disconnect cid) ts now p a r = del_connection-IsReady cid now p a r
  pool_action-IsReady (subscribe cid topic) ts now p a r = subscribe-IsReady cid topic p r
  pool_action-IsReady (unsubscribe cid topic) ts now p a r = unsubscribe-IsReady cid topic p r
  pool_action-IsReady (publish topic value) ts now p a r = publish-IsReady topic value p r
  pool_action-IsReady (attach ns cid) ts now p a r = lattice_attach-IsReady cid ns p r
  pool_action-IsReady (lattice ns delta) ts now p a r = lattice_update-IsReady ns now delta p r
  pool_action-IsReady (detach ns cid) ts now p a r = lattice_detach-IsReady cid ns p r
  pool_action-IsReady (attach_users cid uids) ts now p k r = users_attach-IsReady cid uids now p k r
  pool_action-IsReady (update_users sid uids) ts now p k r = users_update-IsReady sid uids now p k r
  pool_action-IsReady (detach_users cid) ts now p a r = users_detach-IsReady cid p r

  -- The pools that a run of the processor goes through: events and cleanups in any order.
  pub data Reachable : Pool → Type 0 where
    started : (timeout now : ℕ) → Reachable (new_pool timeout now)
    handled :
        (action : Action) (ts now : ℕ) (p q : Pool)
        → Reachable p
        → Accepts p action
        → pool_action p ts now action ≡ ok q
        → Reachable q
    cleaned :
        (is_open : Bool) (timestamp now : ℕ) (next : Option ℕ) (p q : Pool)
        → Reachable p
        → cleanup is_open timestamp now p ≡ ok (next, q)
        → Reachable q

  new_pool-IsReady : (timeout now : ℕ) → IsReady (new_pool timeout now)
  unfolding new_pool get
  new_pool-IsReady timeout now = record {
    sync = record { exact = λ t c. refl; apart = λ c. refl; distinct = λ t. tt };
    keys = record {
      active = λ sid s e. ground (arith, h.get-new sid, e);
      inactive = λ sid s e. ground (arith, e);
      pending = λ c n e. ground (arith, e);
      joined = λ c n e. ground (arith, e);
    };
  }

  -- Every pool that a run reaches is ready.
  pub Reachable-IsReady : (p : Pool) → Reachable p → IsReady p
  Reachable-IsReady p (started timeout now) = new_pool-IsReady timeout now
  Reachable-IsReady q (handled action ts now p _ r a e) =
      subst (Returns IsReady) e (pool_action-IsReady action ts now p a (Reachable-IsReady p r))
  Reachable-IsReady q (cleaned is_open timestamp now next p _ r e) =
      (subst (Returns (λ r. Cleaned timestamp now p r.1))
        (cleanup-open is_open timestamp now p (next, q) e)
        (cleanup-Cleaned timestamp now p (Reachable-IsReady p r))).ready
