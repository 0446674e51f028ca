-- ===== src/Examples/Servers.antt =====
-- Two servers, their links and the requests that they get.
use swindon.Prelude.{
  ℕ, ◌+◌, not, if◌then◌else◌, ◌≡◌, ◌≢◌, refl, arith, String, List, [], ◌∷◌, none, some, true, false,
  nat_beq, codes_eq, string_eq,
}
use swindon.Intern.{codes, valid_namespace, namespace_char}
use swindon.Std.HashMap
use swindon.Std.HashSet
use swindon.Pool.Actions
use swindon.Replication.{ServerId, Watcher, Settings, connecting, connected, remote_send, reconnect}
use swindon.Replication.Links.{open_link, remote_send-links, alive, is_forgotten, reconnect-alive}
use swindon.Ids.PubCid
use swindon.Ids.RequestId.{from_str}
use swindon.Examples.Decimal.{decimal}
use swindon.Listener
use swindon.Listener.{headers_received, query, error, forbidden, valid, has_body}
use swindon.Listener.Requests.{Decoders, route_received}
use swindon.Listener.Owners.{acts, due, acts-due, acts-users}
use swindon.Listener.Reserved.{is_allowed, accepts, headers_received-allowed}
use swindon.Examples.Setting.{paper}

abbrev north : List ℕ
north = codes "north"

abbrev south : List ℕ
south = codes "south"

-- Bodies are not decoded, but for a list of users.
instance abbrev bodies : Decoders
bodies = record { json = λ b. some "{}"; delta = λ b. none; sessions = λ b. some ("bob" ∷ []) }

abbrev watcher : Watcher
watcher = record {
  peers = ("s", connected north) ∷ ("t", connecting 4) ∷ [];
  links = (north, 1) ∷ (codes "east", 2) ∷ [];
  server_id = south;
}

remote_send-links_example :
    HashMap.get (remote_send (nat_beq 1) true watcher).1.links north
    ≡ open_link (nat_beq 1) (HashMap.get watcher.links north)
unfolding HashMap.get
remote_send-links_example = remote_send-links (nat_beq 1) watcher north (refl, (refl, tt))

abbrev settings : Settings
settings = record { peers = "t" ∷ "u" ∷ []; reconnect_timeout = 5 }

reconnect-alive_example :
    let (called, v') = reconnect 7 settings watcher in
    let had = alive 7 v'.links (HashMap.get watcher.peers "t") in
    (HashSet.contains called "t" ≡ not had)
    × (HashMap.get v'.peers "t"
        ≡ (if had then HashMap.get watcher.peers "t" else some (connecting (7 + 5))))
    × (alive 7 v'.links (HashMap.get v'.peers "t") ≡ true)
    × ((k : ServerId)
        → HashMap.get v'.links k ≡ (
            if is_forgotten settings.peers watcher.peers k (HashMap.keys watcher.peers)
            then none
            else HashMap.get watcher.links k))
unfolding HashSet.contains
reconnect-alive_example = reconnect-alive 7 settings watcher "t" refl

acts-due_example :
    acts 0 watcher "pool" north (route_received north [] (Listener.subscribe 3 south "news")).1
    ≡ due [] south (Listener.subscribe 3 south "news")
acts-due_example = acts-due 0 watcher "pool" north [] (Listener.subscribe 3 south "news") refl

north_is_not_south : north ≢ south
north_is_not_south e = ground (arith, codes_eq.beq_iff north south, e)

-- Connection 3 of the north gets a request there, and the south acts on its own connection 3.
acts-users_example :
    (acts 0 watcher "pool" north (route_received north [] (Listener.users_detach 3 north)).1
      ≡ Actions.detach_users 3 ∷ [])
    × (acts 0 watcher "pool" north (route_received north [] (Listener.users_subscribe 3 north)).1
        ≡ Actions.attach_users 3 ("bob" ∷ []) ∷ [])
acts-users_example = acts-users 0 watcher "pool" north [] 3 north (λ e. north_is_not_south e)

abbrev path : String
path = "/v1/connection/AAECAwQFBgcICQoL-_ECAwQFBgcICQoL-17/lattices/shop/cart"

headers_received-allowed_example :
    (is_allowed
        (Listener.lattice_subscribe 17 (codes "AAECAwQFBgcICQoL-_ECAwQFBgcICQoL") "shop.cart")
      ≡ true)
    × (accepts false valid
          (Listener.lattice_subscribe 17 (codes "AAECAwQFBgcICQoL-_ECAwQFBgcICQoL") "shop.cart")
        ≡ true)
unfolding headers_received PubCid.from_str from_str has_body PubCid.rfind_dash Listener.path_name
    Listener.has_dot valid_namespace Listener.dotted namespace_char Listener.starts_with
headers_received-allowed_example =
    headers_received-allowed false (some path) "PUT" valid
      (Listener.lattice_subscribe 17 (codes "AAECAwQFBgcICQoL-_ECAwQFBgcICQoL") "shop.cart") refl

-- A namespace of the server's own cannot be attached to, but it can be updated.
attach_own :
    headers_received false (some "/v1/connection/x/lattices/swindon/user") "PUT" valid
    ≡ error forbidden
unfolding headers_received PubCid.from_str from_str PubCid.rfind_dash Listener.path_name
    Listener.has_dot valid_namespace Listener.dotted namespace_char Listener.starts_with
attach_own = refl

update_own :
    headers_received false (some "/v1/lattice/swindon/user") "POST" valid
    ≡ query (Listener.lattice "swindon.user")
unfolding headers_received has_body Listener.path_name Listener.has_dot valid_namespace
    Listener.dotted namespace_char
update_own = refl
