-- ===== src/Pool/Output.antt =====
-- The helpers of pool.rs that build and send lattice messages.
use swindon.Prelude.{ℕ, String, List, [], ◌∷◌, Option, none, some, string_eq, nat_eq, unwrap_or}
use swindon.World.{World}
use swindon.Timers.{Timers}
use swindon.Outcome.{Outcome, ok, ◌>>=◌}
use swindon.Intern.{parse_key}
use swindon.Std.HashMap.{get, insert, adjust}
use swindon.Lattice.State.{SessionId, Values, Rooms, Lattice, with_session, values_update}
use swindon.Pool.Types.{Cid, Namespace, ConnectionMessage, lattice, sent, Session, Pool, emit}

abbrev pub swindon_user : Namespace
swindon_user = "swindon.user"

abbrev pub status_var : String
status_var = "status"

module _ ⦃w : World⦄ where
  abbrev pub active_status : w.Json
  active_status = w.text "active"

  abbrev pub inactive_status : w.Json
  inactive_status = w.text "inactive"

  abbrev pub offline_status : w.Json
  offline_status = w.text "offline"

  unfoldable pub user_status_update : w.Json → ℕ → Values
  user_status_update value timestamp = record {
    counters = [];
    sets = [];
    registers = (status_var, record { version = w.millis timestamp; value = value }) ∷ [];
    expires = with_session;
  }

  unfoldable pub single_update : SessionId → w.Json → ℕ → Outcome Rooms
  unfolding user_status_update
  single_update user value timestamp = do
    key ← parse_key user
    ok ((key, user_status_update value timestamp) ∷ [])

  -- The loop of `lattice_from` over the session's private rooms.
  unfoldable pub with_shared : Rooms → Rooms → Rooms
  with_shared shared [] = []
  with_shared shared ((key, values) ∷ iter) =
      let rest = with_shared shared iter in
      elim (get shared key) [
        | none ↦ (key, values) ∷ rest
        | some pubval ↦ (key, values_update values pubval) ∷ rest
      ]

module _ ⦃w : World⦄ ⦃h : Timers Session⦄ where
  unfoldable pub lattice_from : ℕ → Namespace → SessionId → Lattice → Pool → Pool
  unfolding with_shared
  lattice_from channel namespace session lat p =
      let data' = with_shared lat.shared (unwrap_or (get lat.private session) []) in
      emit (sent channel (lattice namespace data')) p

  -- `Sessions::get`
  unfoldable pub session_get : Pool → SessionId → Option Session
  session_get p id = elim (h.get p.active id) [ some sess ↦ some sess | none ↦ get p.inactive id ]

  -- A write through `Sessions::get_mut`.
  unfoldable pub session_adjust : Pool → SessionId → (Session → Session) → Pool
  session_adjust p id f = elim (h.get p.active id) [
    | some sess ↦ record p { active = h.adjust p.active id f }
    | none ↦ record p { inactive = adjust p.inactive id f }
  ]

  unfoldable pub status_of : Pool → SessionId → ℕ → w.Json × ℕ
  status_of p peer now = elim (h.get p.active peer) [
    | some sess ↦ (active_status, sess.status_timestamp)
    | none ↦ elim (get p.inactive peer) [
      | some sess ↦ (inactive_status, sess.status_timestamp)
      | none ↦ (offline_status, now)
    ]
  ]

  -- `get_user_statuses`, whose loop inserts into `result`.
  unfoldable pub user_statuses_loop : Pool → ℕ → Rooms → List SessionId → Outcome Rooms
  unfolding status_of user_status_update
  user_statuses_loop p now result [] = ok result
  user_statuses_loop p now result (peer ∷ peers) = do
    key ← parse_key peer
    let (status, ts) = status_of p peer now
    user_statuses_loop p now (insert result key (user_status_update status ts)) peers

  unfoldable pub get_user_statuses : Pool → ℕ → List SessionId → Outcome Rooms
  unfolding user_statuses_loop
  get_user_statuses p now peers = user_statuses_loop p now [] peers

  -- Sends one message to those of a list of connections that are associated.
  unfoldable pub send_all : ConnectionMessage → List Cid → Pool → Pool
  send_all msg [] p = p
  send_all msg (cid ∷ cids) p = elim (get p.connections cid) [
    | some conn ↦ send_all msg cids (emit (sent conn.channel msg) p)
    | none ↦ send_all msg cids p
  ]

  -- The outer loop of `publish_status`, over the listening sessions.
  unfoldable pub notify : ConnectionMessage → List SessionId → Pool → Pool
  unfolding send_all session_get
  notify msg [] p = p
  notify msg (sid ∷ subscr) p = elim (session_get p sid) [
    | some sess ↦ notify msg subscr (send_all msg sess.users_lattice.connections p)
    | none ↦ notify msg subscr p
  ]

  unfoldable pub publish_status : SessionId → w.Json → ℕ → Pool → Outcome Pool
  unfolding single_update notify
  publish_status session_id status timestamp p = elim (get p.user_listeners session_id) [
    | none ↦ ok p
    | some subscr ↦ do
      up ← single_update session_id status timestamp
      ok (notify (lattice swindon_user up) subscr p)
  ]
