-- ===== src/Pool/Ready/Processor.antt =====
-- `handle`, the body of the loop of chat/processor/main.rs, on a pool that is ready.
use swindon.Prelude.{ℕ, ◌≡◌, false, String, some, ◌==◌, string_eq}
use swindon.World.{World}
use swindon.Timers.{Timers}
use swindon.Outcome.{ok}
use swindon.Std.HashMap.{HashMap, get}
use swindon.Pool.Types.{Session, Pool}
use swindon.Pool.Actions.{Event, Pools, pool_action}
use swindon.Pool.Sync.Associating.{IsReady}

module _ ⦃w : World⦄ ⦃h : Timers Session⦄ where
  -- In place of the pool `p` that an event names there is what the action makes of it, which is
  -- ready; every other pool is as it was, and the pools that were stopped have sent nothing more.
  pub record Handled (now : ℕ) (msg : Event) (p : Pool) (before after : Pools) : Type 0 where
    pub here :
        (q : Pool) × (get after.0 msg.pool ≡ some q)
        × (pool_action p msg.timestamp now msg.action ≡ ok q)
        × IsReady q
    pub others : (name : String) → (msg.pool == name) ≡ false → get after.0 name ≡ get before.0 name
    pub stopped : after.1 ≡ before.1
