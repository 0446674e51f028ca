-- ===== src/Listener/Requests.antt =====
-- `data_received` of chat/listener/codec.rs: what a request tells the local processor and the other
-- servers. How bodies are decoded is serde's.
use swindon.Prelude.{
  ℕ, Bool, true, false, not, List, [], ◌∷◌, ◌++◌, Option, none, some, if◌then◌else◌, codes_eq, ◌==◌,
}
use swindon.Outcome.{Outcome, ok, panic}
use swindon.World.{World}
use swindon.Lattice.State.{SessionId, Delta}
use swindon.Pool.Actions
use swindon.Pool.Actions.{Action}
use swindon.Replication
use swindon.Replication.{RemoteAction, ServerId}
use swindon.Listener
use swindon.Listener.{Route, State, query, done, error, Status, bad_request}

abbrev pub is_empty : List ℕ → Bool
is_empty [] = true
is_empty (x ∷ body) = false

module _ ⦃w : World⦄ where
  -- A body is a list of bytes.
  pub record Decoders : Type 0 where
    pub json : List ℕ → Option w.Json
    pub delta : List ℕ → Option Delta
    pub sessions : List ℕ → Option (List SessionId)

  -- What is sent, in the order of the calls: to the processor, and to the other servers.
  pub data Sent : Type 0 where
    local : Action → Sent
    remote : RemoteAction → Sent

  -- The test `srv_id == my_srv_id`.
  abbrev pub if_local : ServerId → ServerId → Action → List Sent
  if_local me srv_id a = if srv_id == me then local a ∷ [] else []

module _ ⦃w : World⦄ ⦃d : Decoders⦄ where
  abbrev bad : State × List Sent
  bad = (error bad_request, [])

  -- The state of a route, and what is sent.
  unfoldable pub route_received : ServerId → List ℕ → Route → State × List Sent
  route_received me body (Listener.subscribe cid srv_id topic) =
      if is_empty body
      then (
        done,
        if_local me srv_id (Actions.subscribe cid topic)
            ++ remote (Replication.subscribe cid srv_id topic) ∷ [],
      )
      else bad
  route_received me body (Listener.unsubscribe cid srv_id topic) =
      if is_empty body
      then (
        done,
        if_local me srv_id (Actions.unsubscribe cid topic)
            ++ remote (Replication.unsubscribe cid srv_id topic) ∷ [],
      )
      else bad
  route_received me body (Listener.publish topic) = elim (d.json body) [
    | none ↦ bad
    | some value ↦
        (done, remote (Replication.publish topic value) ∷ local (Actions.publish topic value) ∷ [])
  ]
  route_received me body (Listener.lattice_subscribe cid srv_id ns) = elim (d.delta body) [
    | none ↦ bad
    | some delta ↦ (
      done,
      remote (Replication.lattice ns delta)
          ∷ remote (Replication.attach cid srv_id ns)
          ∷ local (Actions.lattice ns delta)
          ∷ if_local me srv_id (Actions.attach ns cid),
    )
  ]
  route_received me body (Listener.detach cid srv_id ns) =
      (done, remote (Replication.detach cid srv_id ns) ∷ if_local me srv_id (Actions.detach ns cid))
  route_received me body (Listener.lattice ns) = elim (d.delta body) [
    | none ↦ bad
    | some delta ↦
        (done, remote (Replication.lattice ns delta) ∷ local (Actions.lattice ns delta) ∷ [])
  ]
  route_received me body (Listener.users_subscribe cid srv_id) = elim (d.sessions body) [
    | none ↦ bad
    | some list ↦ (
      done,
      remote (Replication.attach_users cid srv_id list)
          ∷ if_local me srv_id (Actions.attach_users cid list),
    )
  ]
  route_received me body (Listener.users_update sid) = elim (d.sessions body) [
    | none ↦ bad
    | some list ↦ (
      done,
      remote (Replication.update_users sid list) ∷ local (Actions.update_users sid list) ∷ [],
    )
  ]
  route_received me body (Listener.users_detach cid srv_id) = (
    done,
    remote (Replication.detach_users cid srv_id) ∷ if_local me srv_id (Actions.detach_users cid),
  )

  -- A whole body at once, as the receive mode asks for.
  unfoldable pub data_received : ServerId → List ℕ → Bool → State → Outcome (State × List Sent)
  unfolding route_received
  data_received me body end (query route) =
      if not end then panic else ok (route_received me body route)
  data_received me body end done = panic
  data_received me body end (error e) = if not end then panic else ok (error e, [])
