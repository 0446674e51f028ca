-- ===== src/Pool/Actions.antt =====
-- chat/processor/main.rs: the processor loop, which gives each event to its pool.
use swindon.Prelude.{ℕ, String, List, ◌++◌, Option, none, some, string_eq}
use swindon.World.{World}
use swindon.Timers.{Timers}
use swindon.Outcome.{Outcome, ok, panic, ◌>>=◌}
use swindon.Std.HashMap.{HashMap, get, insert, remove}
use swindon.Lattice.State.{SessionId, Delta}
use swindon.Pool.Types.{Cid, Topic, Namespace, Effect, Session, Pool, new_pool}
use swindon.Pool.Connections
use swindon.Pool.Topics
use swindon.Pool.Activity
use swindon.Pool.Lattices.{lattice_attach, lattice_detach}
use swindon.Pool.Updates.{lattice_update}
use swindon.Pool.Users.{users_attach, users_update, users_detach, stop}

module _ ⦃w : World⦄ where
  -- `Action` of chat/processor/mod.rs; the pool's settings are its timeout for new connections.
  pub data Action : Type 0 where
    new_session_pool : ℕ → Action
    stop_session_pool : Action
    new_connection : Cid → ℕ → Action
    associate : Cid → SessionId → w.Json → Action
    update_activity : SessionId → ℕ → Action
    disconnect : Cid → Action
    subscribe unsubscribe : Cid → Topic → Action
    publish : Topic → w.Json → Action
    attach : Namespace → Cid → Action
    lattice : Namespace → Delta → Action
    detach : Namespace → Cid → Action
    attach_users : Cid → List SessionId → Action
    update_users : SessionId → List SessionId → Action
    detach_users : Cid → Action

  pub record Event : Type 0 where
    pub pool : String
    pub timestamp : ℕ
    pub action : Action

module _ ⦃w : World⦄ ⦃h : Timers Session⦄ where
  unfoldable pub pool_action : Pool → ℕ → ℕ → Action → Outcome Pool
  pool_action p ts now (new_session_pool timeout) = panic
  pool_action p ts now stop_session_pool = panic
  pool_action p ts now (new_connection conn_id channel) =
      ok (Connections.add_connection conn_id channel p)
  pool_action p ts now (associate conn_id session_id metadata) =
      Connections.associate conn_id session_id ts metadata now p
  pool_action p ts now (update_activity session_id timestamp) =
      Activity.update_activity session_id timestamp now p
  pool_action p ts now (disconnect conn_id) = Connections.del_connection conn_id now p
  pool_action p ts now (subscribe conn_id topic) = ok (Topics.subscribe conn_id topic p)
  pool_action p ts now (unsubscribe conn_id topic) = Topics.unsubscribe conn_id topic p
  pool_action p ts now (publish topic value) = Topics.publish topic value p
  pool_action p ts now (attach namespace conn_id) = ok (lattice_attach conn_id namespace p)
  pool_action p ts now (lattice namespace delta) = ok (lattice_update namespace now delta p)
  pool_action p ts now (detach namespace conn_id) = ok (lattice_detach conn_id namespace p)
  pool_action p ts now (attach_users conn_id list) = users_attach conn_id list now p
  pool_action p ts now (update_users session_id list) = users_update session_id list now p
  pool_action p ts now (detach_users conn_id) = ok (users_detach conn_id p)

  -- The pools by name, and what the stopped ones had sent.
  abbrev pub Pools : Type 0
  Pools = HashMap String Pool × List Effect

  -- `match action` in the loop of `run`, for a pool that may be missing.
  unfoldable pub handle_action : ℕ → String → ℕ → Pools → Option Pool → Action → Outcome Pools
  unfolding pool_action
  handle_action now name ts (pools, stopped) p (new_session_pool timeout) =
      ok (insert pools name (new_pool timeout now), stopped)
  handle_action now name ts (pools, stopped) none action = ok (pools, stopped)
  handle_action now name ts (pools, stopped) (some p) stop_session_pool =
      ok (remove pools name, stop p ++ stopped)
  handle_action now name ts (pools, stopped) (some p) action = do
    p' ← pool_action p ts now action
    ok (insert pools name p', stopped)

  -- The body of the `for msg` loop of `run`.
  unfoldable pub handle : ℕ → Event → Pools → Outcome Pools
  unfolding handle_action
  handle now msg pools =
      handle_action now msg.pool msg.timestamp pools (get pools.0 msg.pool) msg.action
