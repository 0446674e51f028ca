-- ===== src/Replication.antt =====
-- chat/replication/{action,session}.rs: what servers tell each other, and the watcher that keeps the
-- links to the other servers.
pub mod Links
use swindon.Prelude.{
  ℕ, ◌+◌, String, Bool, true, false, not, List, [], ◌∷◌, ◌++◌, Option, none, some, if◌then◌else◌,
  codes_eq, string_eq, ◌==◌, leb, is_some,
}
use swindon.World.{World}
use swindon.Std.HashMap
use swindon.Std.HashMap.{HashMap}
use swindon.Std.HashSet
use swindon.Lattice.State.{SessionId, Delta}
use swindon.Pool.Types.{Cid, Topic, Namespace}
use swindon.Pool.Actions
use swindon.Pool.Actions.{Action}

-- The text of a request id.
abbrev pub ServerId : Type 0
ServerId = List ℕ

module _ ⦃w : World⦄ where
  pub data RemoteAction : Type 0 where
    subscribe unsubscribe : Cid → ServerId → Topic → RemoteAction
    publish : Topic → w.Json → RemoteAction
    attach detach : Cid → ServerId → Namespace → RemoteAction
    lattice : Namespace → Delta → RemoteAction
    attach_users : Cid → ServerId → List SessionId → RemoteAction
    update_users : SessionId → List SessionId → RemoteAction
    detach_users : Cid → ServerId → RemoteAction
    update_activity : SessionId → ℕ → RemoteAction

  -- The name of a session pool, and what happened there.
  abbrev pub Message : Type 0
  Message = String × RemoteAction

  -- `Into<Action>`, at a reading of the clock.
  unfoldable pub into : ℕ → RemoteAction → Action
  into now (subscribe conn_id server_id topic) = Actions.subscribe conn_id topic
  into now (unsubscribe conn_id server_id topic) = Actions.unsubscribe conn_id topic
  into now (publish topic value) = Actions.publish topic value
  into now (attach conn_id server_id namespace) = Actions.attach namespace conn_id
  into now (detach conn_id server_id namespace) = Actions.detach namespace conn_id
  into now (lattice namespace delta) = Actions.lattice namespace delta
  into now (update_activity session_id duration) =
      Actions.update_activity session_id (now + duration)
  into now (attach_users conn_id server_id list) = Actions.attach_users conn_id list
  into now (update_users session_id list) = Actions.update_users session_id list
  into now (detach_users conn_id server_id) = Actions.detach_users conn_id

-- What is known of a peer: an attempt to connect, with the time at which it is given up, or a server.
pub data Peer : Type 0 where
  connecting : ℕ → Peer
  connected : ServerId → Peer

-- A channel to a server is a number.
pub record Watcher : Type 0 where
  pub peers : HashMap String Peer
  pub links : HashMap ServerId ℕ
  pub server_id : ServerId

pub record Settings : Type 0 where
  pub peers : List String
  pub reconnect_timeout : ℕ

unfoldable pub attach_link : ℕ → ServerId → Option String → Watcher → Watcher
attach_link tx server_id peer v =
    let peers : HashMap String Peer = elim peer [
      | none ↦ v.peers
      | some name ↦ HashMap.insert v.peers name (connected server_id)
    ] in
    record { peers = peers; links = HashMap.insert v.links server_id tx; server_id = v.server_id }

module _ ⦃w : World⦄ where
  -- The test of the match in `local_send`: the message is about a connection of another server.
  unfoldable pub is_skipped : ServerId → RemoteAction → Bool
  is_skipped me (subscribe conn_id server_id topic) = not (me == server_id)
  is_skipped me (unsubscribe conn_id server_id topic) = not (me == server_id)
  is_skipped me (attach conn_id server_id namespace) = not (me == server_id)
  is_skipped me (detach conn_id server_id namespace) = not (me == server_id)
  is_skipped me (publish topic value) = false
  is_skipped me (lattice namespace delta) = false
  is_skipped me (attach_users conn_id server_id list) = false
  is_skipped me (update_users session_id list) = false
  is_skipped me (detach_users conn_id server_id) = false
  is_skipped me (update_activity session_id duration) = false

  -- What the processor is sent: for which pool, and the action.
  unfoldable pub local_send : ℕ → Watcher → Message → Option (String × Action)
  unfolding is_skipped into
  local_send now v (pool, action) =
      if is_skipped v.server_id action then none else some (pool, into now action)

-- `remote_send` of a message that was encoded: the channels that the text goes to, and the links
-- that are kept. `is_open` says of a channel whether its other end is still there.
unfoldable pub delivered : (ℕ → Bool) → HashMap ServerId ℕ → List ℕ
delivered is_open [] = []
delivered is_open ((server_id, tx) ∷ links) =
    let rest = delivered is_open links in if is_open tx then tx ∷ rest else rest

unfoldable pub to_delete : (ℕ → Bool) → HashMap ServerId ℕ → List ServerId
to_delete is_open [] = []
to_delete is_open ((server_id, tx) ∷ links) =
    let rest = to_delete is_open links in if is_open tx then rest else server_id ∷ rest

-- `encoded` says whether the message could be encoded.
unfoldable pub remote_send : (ℕ → Bool) → Bool → Watcher → List ℕ × Watcher
unfolding delivered to_delete
remote_send is_open encoded v = if not encoded then ([], v) else (
  delivered is_open v.links,
  record {
    peers = v.peers;
    links = HashMap.remove_all v.links (to_delete is_open v.links);
    server_id = v.server_id;
  },
)

-- The end of `reconnect` for one peer that the configuration does not have any more.
unfoldable pub forget_peer : Watcher → String → Watcher
forget_peer v peer =
    let peers = HashMap.remove v.peers peer in
    elim (HashMap.get v.peers peer) [
      | some known ↦ elim known [
        | connected server_id ↦ record {
          peers = peers;
          links = HashMap.remove v.links server_id;
          server_id = v.server_id;
        }
        | connecting timeout ↦ record { peers = peers; links = v.links; server_id = v.server_id }
      ]
      | none ↦ record { peers = peers; links = v.links; server_id = v.server_id }
    ]

unfoldable pub forget_peers : List String → Watcher → List String → Watcher
unfolding forget_peer
forget_peers known v [] = v
forget_peers known v (peer ∷ peers) =
    let kept = forget_peers known v peers in
    let dropped = forget_peers known (forget_peer v peer) peers in
    if HashSet.contains known peer then kept else dropped

-- The match in the second loop of `reconnect`: the peer is connected, or is being connected.
unfoldable pub is_busy : ℕ → Watcher → String → Bool
is_busy now v peer = elim (HashMap.get v.peers peer) [
  | none ↦ false
  | some known ↦ elim known [
    | connected server_id ↦ is_some (HashMap.get v.links server_id)
    | connecting timeout ↦ leb now timeout
  ]
]

-- The peers that `connect` is called for, and the watcher.
unfoldable pub connect_peers : ℕ → ℕ → Watcher → List String → List String × Watcher
unfolding is_busy
connect_peers now timeout v [] = ([], v)
connect_peers now timeout v (peer ∷ peers) =
    let waiting = connect_peers now timeout v peers in
    let (called, v') =
      connect_peers now timeout
        (record {
          peers = HashMap.insert v.peers peer (connecting timeout);
          links = v.links;
          server_id = v.server_id;
        })
        peers in
    if is_busy now v peer then waiting else (peer ∷ called, v')

unfoldable pub reconnect : ℕ → Settings → Watcher → List String × Watcher
unfolding forget_peers connect_peers
reconnect now settings v =
    connect_peers now (now + settings.reconnect_timeout)
      (forget_peers settings.peers v (HashMap.keys v.peers)) settings.peers
