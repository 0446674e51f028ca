-- ===== src/Replication/Links.antt =====
-- The links and the peers of a watcher after `remote_send` and `reconnect`.
use swindon.Prelude.{
  ◌==◌, ◌||◌, ℕ, ◌+◌, ◌≡◌, refl, arith, String, Bool, true, false, not, List, [], ◌∷◌, Option, none,
  some, if◌then◌else◌, ◌&&◌, is_some, codes_eq, string_eq, leb, Option-cases, inl, inr,
}
use swindon.Std.HashMap
use swindon.Std.HashMap.{HashMap}
use swindon.Std.HashSet
use swindon.Replication.{
  ServerId, Peer, forget_peer, connected, connecting, Watcher, Settings, to_delete, remote_send,
  forget_peers, is_busy, connect_peers, reconnect,
}

-- A link that is still open.
abbrev pub open_link : (ℕ → Bool) → Option ℕ → Option ℕ
open_link is_open none = none
open_link is_open (some tx) = if is_open tx then some tx else none

to_delete-none :
    (is_open : ℕ → Bool) (links : HashMap ServerId ℕ) (k : ServerId)
    → HashMap.get links k ≡ none
    → HashSet.contains (to_delete is_open links) k ≡ false
unfolding to_delete HashMap.get HashSet.contains
to_delete-none is_open [] k e = refl
to_delete-none is_open ((j, tx) ∷ links) k e =
    ground (arith, e, to_delete-none is_open links k, codes_eq.beq_iff j k, codes_eq.beq_iff k j)

contains-to_delete :
    (is_open : ℕ → Bool) (links : HashMap ServerId ℕ) (k : ServerId) (tx : ℕ)
    → HashMap.IsDistinct links
    → HashMap.get links k ≡ some tx
    → HashSet.contains (to_delete is_open links) k ≡ not (is_open tx)
unfolding to_delete HashMap.get HashSet.contains
contains-to_delete is_open [] k tx d e = absurd (ground (arith, e))
contains-to_delete is_open ((j, ty) ∷ links) k tx d e = ground (
  arith,
  e,
  d.0,
  contains-to_delete is_open links k tx d.1,
  to_delete-none is_open links k,
  codes_eq.beq_iff j k,
  codes_eq.beq_iff k j,
)

-- With one link to each server, a message that was encoded takes away the links whose other ends are
-- gone, and no other.
pub remote_send-links :
    (is_open : ℕ → Bool) (v : Watcher) (k : ServerId)
    → HashMap.IsDistinct v.links
    → HashMap.get (remote_send is_open true v).1.links k ≡ open_link is_open (HashMap.get v.links k)
unfolding remote_send
remote_send-links is_open v k d = elim (Option-cases (HashMap.get v.links k)) [
  | inl e ↦ ground (
    arith,
    e,
    HashMap.get-remove_all v.links (to_delete is_open v.links) k,
    to_delete-none is_open v.links k e,
  )
  | inr (tx, e) ↦ ground (
    arith,
    e,
    HashMap.get-remove_all v.links (to_delete is_open v.links) k,
    contains-to_delete is_open v.links k tx d e,
  )
]

-- A peer that needs no new attempt: it has a link, or an attempt whose time is not over.
abbrev pub alive : ℕ → HashMap ServerId ℕ → Option Peer → Bool
alive now links none = false
alive now links (some (connected server_id)) = is_some (HashMap.get links server_id)
alive now links (some (connecting timeout)) = leb now timeout

is_busy-alive :
    (now : ℕ) (v : Watcher) (peer : String)
    → is_busy now v peer ≡ alive now v.links (HashMap.get v.peers peer)
unfolding is_busy
is_busy-alive now v peer = ground arith

get-forget_peers :
    (known : List String) (v : Watcher) (peers : List String) (peer : String)
    → HashSet.contains known peer ≡ true
    → HashMap.get (forget_peers known v peers).peers peer ≡ HashMap.get v.peers peer
unfolding forget_peers forget_peer
get-forget_peers known v [] peer c = refl
get-forget_peers known v (q ∷ peers) peer c = ground (
  arith,
  c,
  get-forget_peers known v peers peer c,
  get-forget_peers known (forget_peer v q) peers peer c,
  HashMap.get-remove v.peers q peer,
  string_eq.beq_iff q peer,
)

-- The peer is the server.
abbrev serves : ServerId → Option Peer → Bool
serves k none = false
serves k (some (connected server_id)) = server_id == k
serves k (some (connecting timeout)) = false

-- The server is one of the peers, but the configuration does not have that peer.
abbrev pub is_forgotten : List String → HashMap String Peer → ServerId → List String → Bool
is_forgotten known peers k [] = false
is_forgotten known peers k (q ∷ qs) =
    (not (HashSet.contains known q) && serves k (HashMap.get peers q))
    || is_forgotten known peers k qs

is_forgotten-remove :
    (known : List String) (peers : HashMap String Peer) (k : ServerId) (q : String)
    (qs : List String)
    → serves k (HashMap.get peers q) ≡ false
    → is_forgotten known (HashMap.remove peers q) k qs ≡ is_forgotten known peers k qs
is_forgotten-remove known peers k q [] f = refl
is_forgotten-remove known peers k q (j ∷ qs) f = ground (
  arith,
  f,
  HashMap.get-remove peers q j,
  string_eq.beq_iff q j,
  is_forgotten-remove known peers k q qs f,
)

links-forget_peers :
    (known : List String) (v : Watcher) (qs : List String) (k : ServerId)
    → HashMap.get (forget_peers known v qs).links k
      ≡ (if is_forgotten known v.peers k qs then none else HashMap.get v.links k)
unfolding forget_peers forget_peer
links-forget_peers known v [] k = refl
links-forget_peers known v (q ∷ qs) k = elim (Option-cases (HashMap.get v.peers q)) [
  | inl f ↦ ground (
    arith,
    f,
    links-forget_peers known v qs k,
    links-forget_peers known (forget_peer v q) qs k,
    is_forgotten-remove known v.peers k q qs,
  )
  | inr (connecting timeout, f) ↦ ground (
    arith,
    f,
    links-forget_peers known v qs k,
    links-forget_peers known (forget_peer v q) qs k,
    is_forgotten-remove known v.peers k q qs,
  )
  | inr (connected server_id, f) ↦ ground (
    arith,
    f,
    links-forget_peers known v qs k,
    links-forget_peers known (forget_peer v q) qs k,
    is_forgotten-remove known v.peers k q qs,
    HashMap.get-remove v.links server_id k,
    codes_eq.beq_iff server_id k,
  )
]

links-connect_peers :
    (now timeout : ℕ) (v : Watcher) (peers : List String)
    → (connect_peers now timeout v peers).1.links ≡ v.links
unfolding connect_peers
links-connect_peers now timeout v [] = refl
links-connect_peers now timeout v (q ∷ peers) =
    let v' : Watcher = record {
      peers = HashMap.insert v.peers q (connecting timeout);
      links = v.links;
      server_id = v.server_id;
    } in
    ground
      (arith, links-connect_peers now timeout v peers, links-connect_peers now timeout v' peers)

-- What `connect_peers` does about one peer.
abbrev Connects : ℕ → ℕ → Watcher → Bool → String → List String × Watcher → Type 0
Connects now timeout v asked peer (called, v') =
    let needed = asked && not (alive now v.links (HashMap.get v.peers peer)) in
    (HashSet.contains called peer ≡ needed)
    × (HashMap.get v'.peers peer
        ≡ (if needed then some (connecting timeout) else HashMap.get v.peers peer))

connect_peers-Connects :
    (now timeout : ℕ) (v : Watcher) (peers : List String) (peer : String)
    → leb now timeout ≡ true
    → Connects now timeout v (HashSet.contains peers peer) peer (connect_peers now timeout v peers)
unfolding connect_peers HashSet.contains
connect_peers-Connects now timeout v [] peer l = (refl, refl)
connect_peers-Connects now timeout v (q ∷ peers) peer l =
    let v' : Watcher = record {
      peers = HashMap.insert v.peers q (connecting timeout);
      links = v.links;
      server_id = v.server_id;
    } in
    let kept = connect_peers-Connects now timeout v peers peer l in
    let tried = connect_peers-Connects now timeout v' peers peer l in
    (
      ground (
        arith,
        l,
        kept.0,
        tried.0,
        is_busy-alive now v q,
        HashMap.get-insert v.peers q peer (connecting timeout),
        string_eq.beq_iff q peer,
        string_eq.beq_iff peer q,
      ),
      ground (
        arith,
        l,
        kept.1,
        tried.1,
        is_busy-alive now v q,
        HashMap.get-insert v.peers q peer (connecting timeout),
        string_eq.beq_iff q peer,
        string_eq.beq_iff peer q,
      ),
    )

-- After `reconnect` each peer of the configuration has a link, or an attempt to connect whose time
-- is not over: `connect` was called for it exactly if it had neither, and then the attempt is noted
-- with the timeout. What was known of the other peers of the configuration has not changed. A link
-- is taken away if its server is a peer that the configuration lacks, and no other; the links that
-- are left are those that count.
pub reconnect-alive :
    (now : ℕ) (settings : Settings) (v : Watcher) (peer : String)
    → HashSet.contains settings.peers peer ≡ true
    → let (called, v') = reconnect now settings v in
      let had = alive now v'.links (HashMap.get v.peers peer) in
      (HashSet.contains called peer ≡ not had)
      × (HashMap.get v'.peers peer ≡ (
          if had
          then HashMap.get v.peers peer
          else some (connecting (now + settings.reconnect_timeout))))
      × (alive now v'.links (HashMap.get v'.peers peer) ≡ true)
      × ((k : ServerId)
          → HashMap.get v'.links k ≡ (
              if is_forgotten settings.peers v.peers k (HashMap.keys v.peers)
              then none
              else HashMap.get v.links k))
unfolding reconnect
reconnect-alive now settings v peer c =
    let timeout = now + settings.reconnect_timeout in
    let left = forget_peers settings.peers v (HashMap.keys v.peers) in
    let found = get-forget_peers settings.peers v (HashMap.keys v.peers) peer c in
    let links = links-connect_peers now timeout left settings.peers in
    let done = connect_peers-Connects now timeout left settings.peers peer (ground arith) in
    (
      ground (arith, c, found, links, done.0),
      ground (arith, c, found, links, done.1),
      ground (arith, c, found, links, done.1),
      λ k. rw links (links-forget_peers settings.peers v (HashMap.keys v.peers) k),
    )
