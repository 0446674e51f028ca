-- ===== src/Listener/Reserved.antt =====
-- The routes that `headers_received` of chat/listener/codec.rs lets through.
use swindon.Prelude.{
  ℕ, ◌≡◌, refl, arith, String, Bool, true, false, not, ◌&&◌, ◌||◌, List, Option, none, some,
  string_eq, Option-cases, Bool-cases, inl, inr,
}
use swindon.Intern.{codes, valid_topic, valid_namespace, valid_sid}
use swindon.Ids.PubCid.{Decimals}
use swindon.Ids.PubCid
use swindon.Replication.{ServerId}
use swindon.Pool.Types.{Cid}
use swindon.Listener
use swindon.Listener.{
  Route, State, query, done, error, not_found, bad_request, ContentType, valid, absent, invalid,
  has_body, split_slash, split_slashes, path_name, tail_name, dotted, has_dot, is_reserved,
  topic_route, lattice_route, users_route, connection_route, user_route, tail_route, found,
  dispatch, with_content, below_v1, headers_received,
}

-- The names of a route are valid, and a connection is not attached to a reserved namespace.
abbrev pub is_allowed : Route → Bool
is_allowed (Listener.subscribe cid srv_id topic) = valid_topic (codes topic)
is_allowed (Listener.unsubscribe cid srv_id topic) = valid_topic (codes topic)
is_allowed (Listener.publish topic) = valid_topic (codes topic)
is_allowed (Listener.lattice_subscribe cid srv_id ns) =
    valid_namespace (codes ns) && not (is_reserved ns)
is_allowed (Listener.detach cid srv_id ns) = valid_namespace (codes ns) && not (is_reserved ns)
is_allowed (Listener.lattice ns) = valid_namespace (codes ns)
is_allowed (Listener.users_subscribe cid srv_id) = true
is_allowed (Listener.users_detach cid srv_id) = true
is_allowed (Listener.users_update sid) = valid_sid (codes sid)

abbrev pub allows : State → Bool
allows (query route) = is_allowed route
allows done = false
allows (error status) = true

path_name-valid :
    (check : List ℕ → Bool) (x name : String)
    → path_name check x ≡ some name
    → check (codes name) ≡ true
unfolding path_name
path_name-valid check x name e = elim (Bool-cases (check (codes (dotted x)))) [
  | inl v ↦ ground (arith, e, v)
  | inr v ↦ absurd (ground (arith, e, v))
]

tail_name-valid :
    (check : List ℕ → Bool) (x : Option String) (name : String)
    → tail_name check x ≡ some name
    → check (codes name) ≡ true
tail_name-valid check none name e = absurd (ground (arith, e))
tail_name-valid check (some x) name e = path_name-valid check x name e

topic_route-allows :
    (method : String) (cid : Option (Cid × ServerId)) (x : Option String)
    → allows (topic_route method cid (tail_name valid_topic x)) ≡ true
unfolding topic_route
topic_route-allows method cid x = elim (Option-cases (tail_name valid_topic x)) [
  | inl e ↦ ground (arith, e)
  | inr (t, e) ↦ ground (arith, e, tail_name-valid valid_topic x t e)
]

lattice_route-allows :
    (method : String) (cid : Option (Cid × ServerId)) (x : Option String)
    → allows (lattice_route method cid (tail_name valid_namespace x)) ≡ true
unfolding lattice_route
lattice_route-allows method cid x = elim (Option-cases (tail_name valid_namespace x)) [
  | inl e ↦ ground (arith, e)
  | inr (t, e) ↦ ground (arith, e, tail_name-valid valid_namespace x t e)
]

connection_route-allows :
    (method : String) (cid : Option (Cid × ServerId)) (more : Option (String × Option String))
    → allows (connection_route method cid more) ≡ true
unfolding connection_route users_route
connection_route-allows method cid none = refl
connection_route-allows method cid (some (middle, tail)) =
    ground (arith, topic_route-allows method cid tail, lattice_route-allows method cid tail)

user_route-allows : (p : String × Option (String × Option String)) → allows (user_route p) ≡ true
unfolding user_route
user_route-allows (head, none) = refl
user_route-allows (head, some (page, tail)) = ground arith

found-allows :
    (check : List ℕ → Bool) (route : String → Route) (x : String)
    → ((name : String) → check (codes name) ≡ is_allowed (route name))
    → allows (found route (path_name check x)) ≡ true
found-allows check route x h = elim (Option-cases (path_name check x)) [
  | inl e ↦ rw (e, found) refl
  | inr (t, e) ↦ rw (e, found) (ground (arith, h t, path_name-valid check x t e))
]

module _ ⦃d : Decimals⦄ where
  tail_route-allows : (method head rest : String) → allows (tail_route method head rest) ≡ true
  unfolding tail_route
  tail_route-allows method head rest =
      let p = split_slashes rest in
      ground (
        arith,
        connection_route-allows method (PubCid.from_str (codes p.0)) p.1,
        user_route-allows p,
        found-allows valid_topic Listener.publish rest (λ x. refl),
        found-allows valid_namespace Listener.lattice rest (λ x. refl),
      )

  dispatch-allows : (path method : String) → allows (dispatch path method) ≡ true
  unfolding dispatch
  dispatch-allows path method = elim (Option-cases (split_slash path).1) [
    | inl e ↦ rw (e, dispatch) refl
    | inr (rest, e) ↦ rw (e, dispatch) (tail_route-allows method (split_slash path).0 rest)
  ]

  abbrev pub is_valid : ContentType → Bool
  is_valid valid = true
  is_valid absent = false
  is_valid invalid = false

  abbrev pub accepts : Bool → ContentType → Route → Bool
  accepts weak_type content route = not (has_body route) || (weak_type || is_valid content)

  with_content-accepts :
      (weak_type : Bool) (content : ContentType) (s : State) (route : Route)
      → with_content weak_type content s ≡ query route
      → (s ≡ query route) × (accepts weak_type content route ≡ true)
  unfolding with_content
  with_content-accepts weak_type content (error status) route e = absurd (ground (arith, e))
  with_content-accepts weak_type content done route e = absurd (ground (arith, e))
  with_content-accepts weak_type absent (query q) route e = ground (arith, e)
  with_content-accepts weak_type invalid (query q) route e = ground (arith, e)
  with_content-accepts weak_type valid (query q) route e = ground (arith, e)

  -- A request that is let through has valid names, does not attach a connection to a namespace of
  -- the server's own, and if it has a body, its content type was accepted.
  pub headers_received-allowed :
      (weak_type : Bool) (path : Option String) (method : String) (content : ContentType)
      (route : Route)
      → headers_received weak_type path method content ≡ query route
      → (is_allowed route ≡ true) × (accepts weak_type content route ≡ true)
  unfolding headers_received
  headers_received-allowed weak_type none method content route e = absurd (ground (arith, e))
  headers_received-allowed weak_type (some path) method content route e =
      elim (Option-cases (below_v1 path)) [
        | inl n ↦ absurd (ground (arith, e, n))
        | inr (rest, n) ↦
            let r =
              with_content-accepts weak_type content (dispatch rest method) route
                (ground (arith, e, n)) in
            (ground (arith, dispatch-allows rest method, r.0), r.1)
      ]
