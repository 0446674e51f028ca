-- ===== src/Examples/Pools.antt =====
-- chat/processor/pool.rs on concrete events.
use swindon.Prelude.{
  false, ltb, ◌+◌, ◌≡◌, refl, true, ◌||◌, [], ◌∷◌, none, some, is_some, arith, string_eq, nat_eq,
}
use swindon.Timers.{Timers}
use swindon.Outcome.{Outcome, ok, panic, Returns}
use swindon.Std.HashMap.{get, insert, remove}
use swindon.Std.HashSet
use swindon.Intern.{valid_topic, topic_char}
use swindon.Pool.Types.{NewConnection, Session, Pool, new_pool, new_connection}
use swindon.Pool.Connections.{add_connection, associate}
use swindon.Pool.Topics.{subscribe, publish}
use swindon.Pool.Lattices.{lattice_attach}
use swindon.Pool.Activity.{cleanup, lattice_cleanup, lattice_cleanup_interval}
use swindon.Pool.Actions.{Action, Event, Pools, pool_action}
use swindon.Pool.Output.{publish_status, session_get}
use swindon.Pool.Frames.{IsKey}
use swindon.Pool.Sync.Tables.{InSync, subs_of}
use swindon.Pool.Sync.Publishing.{Delivered, publish-Delivered}
use swindon.Pool.Sync.Associating.{
  IsReady, LatticesExist, add_connection-IsReady, associate-IsReady,
}
use swindon.Pool.Ready.Topics.{subscribe-IsReady}
use swindon.Pool.Ready.Lattices.{lattice_attach-IsReady}
use swindon.Pool.Ready.Cleanup.{Cleaned, cleanup-Cleaned}
use swindon.Pool.Ready.Actions.{
  Accepts, pool_action-IsReady, Reachable, started, handled, Reachable-IsReady,
}
use swindon.Lattice.State.{Values, Lattice, with_session}
use swindon.Lattice.Updates.{IsDistinctPrivate}
use swindon.Pool.Expiry.{kept, stored_value, lattice_cleanup-kept}
use swindon.Pool.Ready.Lost.{associate-lost}
use swindon.Examples.Setting.{paper}
use swindon.Examples.Deadlines.{deadlines}

instance abbrev sessions : Timers Session
sessions = deadlines Session

abbrev fresh : Pool
fresh = new_pool 100 0

-- The connection 1 on the channel 10 is pending, and follows `news`.
abbrev one : Pool
one = add_connection 1 10 fresh

abbrev following : Pool
following = subscribe 1 "news" one

fresh-Reachable : Reachable fresh
fresh-Reachable = started 100 0

one-IsReady : IsReady one
unfolding new_pool get
one-IsReady = add_connection-IsReady 1 10 fresh refl refl (Reachable-IsReady fresh fresh-Reachable)

following-IsReady : IsReady following
following-IsReady = subscribe-IsReady 1 "news" one one-IsReady

ann-IsKey : IsKey "ann"
unfolding valid_topic topic_char
ann-IsKey = refl

following_lattices : LatticesExist following 1
unfolding new_pool new_connection add_connection subscribe get insert HashSet.contains
following_lattices conn ns e c = ground (arith, e, c)

one-Accepts : Accepts fresh (Action.new_connection 1 10)
unfolding Accepts new_pool get
one-Accepts = (refl, refl)

one-Reachable : Reachable one
unfolding pool_action
one-Reachable = handled (Action.new_connection 1 10) 0 0 fresh one fresh-Reachable one-Accepts refl

Reachable-IsReady_example : IsReady one
Reachable-IsReady_example = Reachable-IsReady one one-Reachable

following-Accepts : Accepts following (Action.associate 1 "ann" "{}")
unfolding Accepts
following-Accepts = (ann-IsKey, following_lattices)

pool_action-IsReady_example :
    Returns IsReady (pool_action following 5 5 (Action.associate 1 "ann" "{}"))
pool_action-IsReady_example =
    pool_action-IsReady (Action.associate 1 "ann" "{}") 5 5 following following-Accepts
      following-IsReady

abbrev returned : Outcome Pool → Pool
returned (ok p) = p
returned panic = fresh

returned-IsReady : (m : Outcome Pool) → Returns IsReady m → IsReady (returned m)
returned-IsReady (ok p) r = r
returned-IsReady panic r = absurd r

-- `ann` is there with the connection 1, until 105.
abbrev there : Pool
there = returned (associate 1 "ann" 5 "{}" 5 following)

there-IsReady : IsReady there
there-IsReady =
    returned-IsReady (associate 1 "ann" 5 "{}" 5 following)
      (associate-IsReady 1 "ann" 5 5 "{}" following following-IsReady ann-IsKey following_lattices)

there_joined : is_some (get there.pending_connections 1) || is_some (get there.connections 1) ≡ true
unfolding new_pool new_connection add_connection subscribe associate get insert remove deadlines
    publish_status HashSet.contains HashSet.insert
there_joined = refl

publish-Delivered_example :
    Returns
      (λ q. Delivered "news" "[]" (subs_of following "news") following q × InSync q)
      (publish "news" "[]" following)
publish-Delivered_example = publish-Delivered "news" "[]" following following-IsReady.sync

cleanup-Cleaned_example : Returns (λ r. Cleaned 200 200 there r.1) (cleanup true 200 200 there)
cleanup-Cleaned_example = cleanup-Cleaned 200 200 there there-IsReady

-- Without the receiver of the pool's messages the same cleanup panics, but not before `ann` is due.
closed :
    (cleanup false 200 200 there ≡ panic)
    × (cleanup false 105 105 there ≡ cleanup true 105 105 there)
unfolding cleanup new_pool new_connection add_connection subscribe associate get insert remove
    deadlines publish_status HashSet.contains HashSet.insert lattice_cleanup
closed = (refl, refl)

-- The connection is also attached to `chat`, which has no lattice yet.
abbrev attached : Pool
attached = lattice_attach 1 "chat" following

abbrev attached_connection : NewConnection
attached_connection = record {
  cid = 1;
  topics = "news" ∷ [];
  lattices = "chat" ∷ [];
  users_lattice = [];
  message_buffer = [];
  channel = 10;
}

attached_pending : get attached.pending_connections 1 ≡ some attached_connection
unfolding new_pool new_connection add_connection subscribe lattice_attach get insert HashSet.insert
    HashSet.contains
attached_pending = refl

attached_lattices : get attached.lattices "chat" ≡ none
unfolding new_pool new_connection add_connection subscribe lattice_attach get insert
attached_lattices = refl

chat_there : HashSet.contains attached_connection.lattices "chat" ≡ true
unfolding HashSet.contains
chat_there = refl

news_there : HashSet.contains attached_connection.topics "news" ≡ true
unfolding HashSet.contains
news_there = refl

associate-lost_example :
    Returns (λ q. publish "news" "[]" q ≡ panic) (associate 1 "ann" 5 "{}" 5 attached)
associate-lost_example =
    associate-lost 1 "ann" 5 5 "{}" "[]" attached attached_connection "chat" "news"
      (lattice_attach-IsReady 1 "chat" following following-IsReady).sync attached_pending chat_there
      attached_lattices news_there

abbrev joining : Event
joining = record { pool = "main"; timestamp = 5; action = Action.associate 1 "ann" "{}" }

abbrev pools : Pools
pools = (("main", following) ∷ ("side", fresh) ∷ [], [])

-- Values of a session that is not there.
abbrev left_over : Values
left_over = record {
  counters = ("likes", 3) ∷ [];
  sets = [];
  registers = [];
  expires = with_session;
}

abbrev chat : Lattice
chat = record {
  shared = [];
  private = ("bob", ("room", left_over) ∷ []) ∷ [];
  subscriptions = ("room", "bob" ∷ []) ∷ [];
}

abbrev chatting : Pool
chatting = record fresh { lattices = ("chat", chat) ∷ [] }

chat_due : ltb 60000 (chatting.last_lattice_cleanup + lattice_cleanup_interval) ≡ false
unfolding new_pool
chat_due = refl

chatting-chat : get chatting.lattices "chat" ≡ some chat
unfolding get
chatting-chat = refl

chat-IsDistinct : IsDistinctPrivate chat.private
unfolding get
chat-IsDistinct =
    (refl, (refl, record { counters = (refl, tt); sets = tt; registers = tt }, tt), tt)

lattice_cleanup-kept_example :
    stored_value (lattice_cleanup 60000 chatting).1 "chat" "bob" "room"
    ≡ kept (is_some (session_get chatting "bob")) 60000 (stored_value chatting "chat" "bob" "room")
lattice_cleanup-kept_example =
    lattice_cleanup-kept 60000 chatting "chat" chat "bob" "room" chat_due chatting-chat
      chat-IsDistinct
