-- ===== src/Pool/Types.antt =====
-- The data of a session pool: chat/processor/{session,connection,pool}.rs, and the messages of
-- chat/processor/mod.rs that a pool sends.
use swindon.Prelude.{ℕ, Bool, String, List, [], ◌∷◌}
use swindon.World.{World}
use swindon.Timers.{Timers}
use swindon.Std.HashMap.{HashMap}
use swindon.Std.HashSet.{HashSet}
use swindon.Pair.{Pairs}
use swindon.Lattice.State.{SessionId, Rooms, Lattice}

abbrev pub Cid : Type 0
Cid = ℕ

abbrev pub Topic : Type 0
Topic = String

abbrev pub Namespace : Type 0
Namespace = String

pub data Subscription : Type 0 where
  pending session : Subscription

pub data CloseReason : Type 0 where
  pool_stopped : CloseReason
  peer_close : ℕ → String → CloseReason

-- The metrics that pool.rs writes.
pub data Gauge : Type 0 where
  active_sessions inactive_sessions topics lattices pubsub_input pubsub_output : Gauge

pub record UsersLattice : Type 0 where
  pub connections : HashSet Cid
  pub peers : HashSet SessionId

module _ ⦃w : World⦄ where
  -- The variants that a pool sends; hello, results and errors come from other parts.
  pub data ConnectionMessage : Type 0 where
    publish : Topic → w.Json → ConnectionMessage
    lattice : Namespace → Rooms → ConnectionMessage
    stop_sock : CloseReason → ConnectionMessage

  pub data PoolMessage : Type 0 where
    inactive_session : SessionId → ℕ → w.Json → PoolMessage

  -- What a pool does to the outside: a message on a connection's channel, a message to the
  -- inactivity handler, a metric that is counted up or down.
  pub data Effect : Type 0 where
    sent : ℕ → ConnectionMessage → Effect
    pool_sent : PoolMessage → Effect
    incr decr : Gauge → Effect

  pub record Session : Type 0 where
    pub status_timestamp : ℕ
    pub connections : HashSet Cid
    pub lattices : HashMap Namespace (HashSet Cid)
    pub users_lattice : UsersLattice
    pub metadata : w.Json

  pub record NewConnection : Type 0 where
    pub cid : Cid
    pub topics : HashSet Topic
    pub lattices : HashSet Namespace
    pub users_lattice : HashSet SessionId
    pub message_buffer : List (Topic × w.Json)
    pub channel : ℕ

  pub record Connection : Type 0 where
    pub cid : Cid
    pub session_id : SessionId
    pub topics : HashSet Topic
    pub lattices : HashSet Namespace
    pub users_lattice : Bool
    pub channel : ℕ

  -- `Session::new()` at a clock reading.
  unfoldable pub new_session : ℕ → Session
  new_session now = record {
    status_timestamp = now;
    connections = [];
    lattices = [];
    users_lattice = record { connections = []; peers = [] };
    metadata = w.object;
  }

  unfoldable pub new_connection : Cid → ℕ → NewConnection
  new_connection conn_id channel = record {
    cid = conn_id;
    topics = [];
    lattices = [];
    users_lattice = [];
    message_buffer = [];
    channel = channel;
  }

module _ ⦃w : World⦄ ⦃h : Timers Session⦄ where
  -- `Sessions` is the first two fields. `out` is what was sent and counted so far, newest first.
  pub record Pool : Type 0 where
    pub active : h.Map
    pub inactive : HashMap SessionId Session
    pub pending_connections : HashMap Cid NewConnection
    pub connections : HashMap Cid Connection
    pub topics : HashMap Topic (HashMap Cid Subscription)
    pub lattices : HashMap Namespace Lattice
    pub user_listeners : Pairs SessionId SessionId
    pub last_lattice_cleanup : ℕ
    pub new_connection_timeout : ℕ
    pub out : List Effect

  -- `Pool::new` with the configured `new_connection_idle_timeout`, at a clock reading.
  unfoldable pub new_pool : ℕ → ℕ → Pool
  new_pool timeout now = record {
    active = h.new;
    inactive = [];
    pending_connections = [];
    connections = [];
    topics = [];
    lattices = [];
    user_listeners = [];
    last_lattice_cleanup = now;
    new_connection_timeout = timeout;
    out = [];
  }

  abbrev pub emit : Effect → Pool → Pool
  emit e p = record p { out = e ∷ p.out }
