-- ===== src/Listener/Owners.antt =====
-- Requests across servers: what the one that gets a request and the ones that hear of it do.
use swindon.Prelude.{
  ℕ, ◌≡◌, ◌≢◌, arith, String, Bool, true, false, ◌&&◌, List, [], ◌∷◌, ◌++◌, Option, none, some,
  if◌then◌else◌, codes_eq, ◌==◌,
}
use swindon.World.{World}
use swindon.Pool.Types.{Cid}
use swindon.Pool.Actions
use swindon.Pool.Actions.{Action}
use swindon.Replication.{ServerId, Watcher, local_send, is_skipped, into}
use swindon.Listener
use swindon.Listener.{Route, State, query, done, error, Status, bad_request}
use swindon.Listener.Requests.{Decoders, Sent, local, remote, is_empty, route_received}

module _ ⦃w : World⦄ where
  -- What the processor of the server that gets the request is sent.
  abbrev pub here : List Sent → List Action
  here [] = []
  here (local a ∷ s) = a ∷ here s
  here (remote r ∷ s) = here s

  abbrev heard : Option (String × Action) → List Action
  heard none = []
  heard (some (pool, a)) = a ∷ []

  -- What the processor of another server is sent, once the messages arrive there in order.
  abbrev pub there : ℕ → Watcher → String → List Sent → List Action
  there now v pool [] = []
  there now v pool (local a ∷ s) = there now v pool s
  there now v pool (remote r ∷ s) = heard (local_send now v (pool, r)) ++ there now v pool s

  -- The actions at the server of a watcher, when the server `me` gets the request.
  abbrev pub acts : ℕ → Watcher → String → ServerId → List Sent → List Action
  acts now v pool me s = if me == v.server_id then here s else there now v pool s

module _ ⦃w : World⦄ ⦃d : Decoders⦄ where
  abbrev only : Bool → Action → List Action
  only owner a = if owner then a ∷ [] else []

  abbrev decoded : {A : Type 0} → (A → List Action) → Option A → List Action
  decoded f none = []
  decoded f (some a) = f a

  -- What a request is to do at a server, whichever server gets it: a connection belongs to one.
  abbrev pub due : List ℕ → ServerId → Route → List Action
  due body server (Listener.subscribe cid srv_id topic) =
      only (is_empty body && srv_id == server) (Actions.subscribe cid topic)
  due body server (Listener.unsubscribe cid srv_id topic) =
      only (is_empty body && srv_id == server) (Actions.unsubscribe cid topic)
  due body server (Listener.publish topic) =
      decoded (λ value. Actions.publish topic value ∷ []) (d.json body)
  due body server (Listener.lattice_subscribe cid srv_id ns) =
      decoded (λ delta. Actions.lattice ns delta ∷ only (srv_id == server) (Actions.attach ns cid))
        (d.delta body)
  due body server (Listener.detach cid srv_id ns) = only (srv_id == server) (Actions.detach ns cid)
  due body server (Listener.lattice ns) =
      decoded (λ delta. Actions.lattice ns delta ∷ []) (d.delta body)
  due body server (Listener.users_subscribe cid srv_id) =
      decoded (λ list. only (srv_id == server) (Actions.attach_users cid list)) (d.sessions body)
  due body server (Listener.users_update sid) =
      decoded (λ list. Actions.update_users sid list ∷ []) (d.sessions body)
  due body server (Listener.users_detach cid srv_id) =
      only (srv_id == server) (Actions.detach_users cid)

  -- The two requests about the users that a connection follows.
  abbrev pub is_about_users : Route → Bool
  is_about_users (Listener.users_subscribe cid srv_id) = true
  is_about_users (Listener.users_detach cid srv_id) = true
  is_about_users route = false

  same_server :
      (me srv_id server : ServerId)
      → ((server == srv_id) ≡ (srv_id == server))
        × ((me == server) ≡ true → (srv_id == me) ≡ (srv_id == server))
  same_server me srv_id server =
      let a = codes_eq.beq_iff me server in
      let b = codes_eq.beq_iff srv_id server in
      let c = codes_eq.beq_iff server srv_id in
      let f = codes_eq.beq_iff srv_id me in (ground (arith, b, c), λ e. ground (arith, a, b, f, e))

  -- A request that is not about users acts at each server as is due there, whichever server gets it.
  pub acts-due :
      (now : ℕ) (v : Watcher) (pool : String) (me : ServerId) (body : List ℕ) (route : Route)
      → is_about_users route ≡ false
      → acts now v pool me (route_received me body route).1 ≡ due body v.server_id route
  unfolding route_received local_send is_skipped into
  acts-due now v pool me body (Listener.subscribe cid srv_id topic) e =
      ground (arith, same_server me srv_id v.server_id)
  acts-due now v pool me body (Listener.unsubscribe cid srv_id topic) e =
      ground (arith, same_server me srv_id v.server_id)
  acts-due now v pool me body (Listener.publish topic) e = ground arith
  acts-due now v pool me body (Listener.lattice_subscribe cid srv_id ns) e =
      ground (arith, same_server me srv_id v.server_id)
  acts-due now v pool me body (Listener.detach cid srv_id ns) e =
      ground (arith, same_server me srv_id v.server_id)
  acts-due now v pool me body (Listener.lattice ns) e = ground arith
  acts-due now v pool me body (Listener.users_update sid) e = ground arith
  acts-due now v pool me body (Listener.users_subscribe cid srv_id) e = absurd (ground (arith, e))
  acts-due now v pool me body (Listener.users_detach cid srv_id) e = absurd (ground (arith, e))

  -- A request about users acts at every other server, on its connection of the same number.
  pub acts-users :
      (now : ℕ) (v : Watcher) (pool : String) (me : ServerId) (body : List ℕ) (cid : Cid)
      (srv_id : ServerId)
      → me ≢ v.server_id
      → (acts now v pool me (route_received me body (Listener.users_detach cid srv_id)).1
          ≡ Actions.detach_users cid ∷ [])
        × (acts now v pool me (route_received me body (Listener.users_subscribe cid srv_id)).1
            ≡ decoded (λ list. Actions.attach_users cid list ∷ []) (d.sessions body))
  unfolding route_received local_send is_skipped into
  acts-users now v pool me body cid srv_id n = (
    ground (arith, codes_eq.beq_iff me v.server_id, n),
    ground (arith, codes_eq.beq_iff me v.server_id, n),
  )
