-- ===== src/Listener.antt =====
-- chat/listener/codec.rs: the requests of backends. Here the routes; `Listener/Requests` has what a
-- request does. A path is a native text.
pub mod Requests
pub mod Owners
pub mod Reserved
use Prim.Native.Char.{Char, char, code}
use swindon.Prelude.{
  ℕ, String, Bool, true, false, not, ◌&&◌, List, [], ◌∷◌, Option, none, some, if◌then◌else◌,
  string_eq, ◌==◌, nat_beq,
}
use swindon.Intern.{codes, valid_topic, valid_namespace, valid_sid}
use swindon.Lattice.State.{SessionId}
use swindon.Pool.Types.{Cid, Topic, Namespace}
use swindon.Ids.PubCid.{Decimals}
use swindon.Ids.PubCid
use swindon.Replication.{ServerId}

-- A status of HTTP that the listener answers with.
pub data Status : Type 0 where
  bad_request forbidden not_found internal_server_error : Status

-- `PubCid` is the number of a connection and its server.
pub data Route : Type 0 where
  subscribe unsubscribe : Cid → ServerId → Topic → Route
  publish : Topic → Route
  lattice_subscribe detach : Cid → ServerId → Namespace → Route
  users_subscribe users_detach : Cid → ServerId → Route
  users_update : SessionId → Route
  lattice : Namespace → Route

pub data State : Type 0 where
  query : Route → State
  done : State
  error : Status → State

unfoldable pub has_body : Route → Bool
has_body (subscribe cid srv_id topic) = false
has_body (unsubscribe cid srv_id topic) = false
has_body (publish topic) = true
has_body (lattice_subscribe cid srv_id ns) = true
has_body (detach cid srv_id ns) = false
has_body (users_subscribe cid srv_id) = true
has_body (users_update sid) = true
has_body (users_detach cid srv_id) = false
has_body (lattice ns) = true

-- `splitn(2, '/')`
unfoldable pub split_slash : String → String × Option String
split_slash String.[] = (String.[], none)
split_slash (String.◌∷◌ c s) =
    let (head, tail) = split_slash s in
    if nat_beq (code c) b'/' then (String.[], some s) else (String.◌∷◌ c head, tail)

-- `splitn(3, '/')`
unfoldable pub split_slashes : String → String × Option (String × Option String)
unfolding split_slash
split_slashes s =
    let (head, tail) = split_slash s in
    (head, elim tail [ none ↦ none | some rest ↦ some (split_slash rest) ])

-- `contains('.')`
unfoldable pub has_dot : String → Bool
has_dot String.[] = false
has_dot (String.◌∷◌ c s) = if nat_beq (code c) b'.' then true else has_dot s

-- `replace("/", ".")`
unfoldable pub dotted : String → String
dotted String.[] = String.[]
dotted (String.◌∷◌ c s) =
    let rest = dotted s in
    if nat_beq (code c) b'/' then String.◌∷◌ (char b'.' tt) rest else String.◌∷◌ c rest

unfoldable pub starts_with : List ℕ → List ℕ → Bool
starts_with [] s = true
starts_with (c ∷ p) [] = false
starts_with (c ∷ p) (d ∷ s) = nat_beq c d && starts_with p s

-- The name in a path, of the kind that a validator accepts.
unfoldable pub path_name : (List ℕ → Bool) → String → Option String
path_name valid x =
    if has_dot x then none else if valid (codes (dotted x)) then some (dotted x) else none

abbrev pub tail_name : (List ℕ → Bool) → Option String → Option String
tail_name valid none = none
tail_name valid (some x) = path_name valid x

abbrev pub is_reserved : Namespace → Bool
is_reserved ns = starts_with (codes "swindon.") (codes ns)

-- The matches of `dispatch` on what was parsed.
unfoldable pub topic_route : String → Option (Cid × ServerId) → Option Topic → State
topic_route method (some (cid, srv_id)) (some t) =
    if method == "PUT"
    then query (subscribe cid srv_id t)
    else if method == "DELETE"
    then query (unsubscribe cid srv_id t)
    else error not_found
topic_route method none (some t) = error not_found
topic_route method (some cid) none = error not_found
topic_route method none none = error not_found

unfoldable pub lattice_route : String → Option (Cid × ServerId) → Option Namespace → State
lattice_route method (some (cid, srv_id)) (some ns) =
    if is_reserved ns
    then error forbidden
    else if method == "PUT"
    then query (lattice_subscribe cid srv_id ns)
    else if method == "DELETE"
    then query (detach cid srv_id ns)
    else error not_found
lattice_route method none (some ns) = if is_reserved ns then error forbidden else error not_found
lattice_route method (some cid) none = error not_found
lattice_route method none none = error not_found

unfoldable pub users_route : String → Option (Cid × ServerId) → State
users_route method none = error not_found
users_route method (some (cid, srv_id)) =
    if method == "PUT"
    then query (users_subscribe cid srv_id)
    else if method == "DELETE"
    then query (users_detach cid srv_id)
    else error not_found

unfoldable pub connection_route :
    String → Option (Cid × ServerId) → Option (String × Option String) → State
unfolding topic_route lattice_route users_route
connection_route method cid none = error not_found
connection_route method cid (some (middle, tail)) =
    if middle == "subscriptions"
    then topic_route method cid (tail_name valid_topic tail)
    else if middle == "lattices"
    then lattice_route method cid (tail_name valid_namespace tail)
    else if middle == "users"
    then users_route method cid
    else error not_found

abbrev pub found : (String → Route) → Option String → State
found route none = error not_found
found route (some a) = query (route a)

unfoldable pub user_route : String × Option (String × Option String) → State
user_route (head, none) = error not_found
user_route (head, some (page, tail)) =
    if page == "users" && valid_sid (codes head) then query (users_update head) else error not_found

module _ ⦃d : Decimals⦄ where
  -- The match of `dispatch`, on a path with a head and a tail.
  unfoldable pub tail_route : String → String → String → State
  unfolding split_slashes connection_route user_route
  tail_route method head rest =
      let (first, more) = split_slashes rest in
      if head == "connection"
      then connection_route method (PubCid.from_str (codes first)) more
      else if method == "POST" && head == "publish"
      then found publish (path_name valid_topic rest)
      else if method == "POST" && head == "lattice"
      then found lattice (path_name valid_namespace rest)
      else if method == "PUT" && head == "user"
      then user_route (first, more)
      else error not_found

  -- `dispatch` of the path below `/v1/`.
  unfoldable pub dispatch : String → String → State
  unfolding split_slash tail_route
  dispatch path method =
      let (head, tail) = split_slash path in
      elim tail [ none ↦ error not_found | some rest ↦ tail_route method head rest ]

-- `ContentType` of chat/content_type.rs, as `check_json` finds it in the headers.
pub data ContentType : Type 0 where
  absent valid invalid : ContentType

-- The test of the content type, for a route with a body.
unfoldable pub with_content : Bool → ContentType → State → State
with_content weak_type content (error status) = error status
with_content weak_type content done = done
with_content weak_type content (query q) = if not (has_body q) then query q else elim content [
  | valid ↦ query q
  | absent ↦ if weak_type then query q else error bad_request
  | invalid ↦ if weak_type then query q else error bad_request
]

-- `path.starts_with("/v1/")`, and the rest of the path.
unfoldable pub below_v1 : String → Option String
below_v1 String.[] = none
below_v1 (String.◌∷◌ a String.[]) = none
below_v1 (String.◌∷◌ a (String.◌∷◌ b String.[])) = none
below_v1 (String.◌∷◌ a (String.◌∷◌ b (String.◌∷◌ c String.[]))) = none
below_v1 (String.◌∷◌ a (String.◌∷◌ b (String.◌∷◌ c (String.◌∷◌ d path)))) =
    if nat_beq (code a) b'/'
      && nat_beq (code b) b'v'
      && nat_beq (code c) b'1'
      && nat_beq (code d) b'/'
    then some path
    else none

module _ ⦃d : Decimals⦄ where
  unfoldable pub headers_received : Bool → Option String → String → ContentType → State
  unfolding dispatch with_content below_v1
  headers_received weak_type none method content = error bad_request
  headers_received weak_type (some path) method content = elim (below_v1 path) [
    | none ↦ error not_found
    | some rest ↦ with_content weak_type content (dispatch rest method)
  ]
