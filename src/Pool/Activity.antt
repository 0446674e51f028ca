-- ===== src/Pool/Activity.antt =====
-- Time in a session pool: `update_activity`, `clean_sessions`, `lattice_cleanup` and `cleanup` of
-- pool.rs.
use swindon.Prelude.{
  ℕ, zero, suc, ◌+◌, Bool, true, false, [], ◌∷◌, Option, none, some, if◌then◌else◌, string_eq,
  nat_eq, is_some, ltb, length,
}
use swindon.World.{World}
use swindon.Timers.{Timers}
use swindon.Outcome.{Outcome, ok, panic, ◌>>=◌}
use swindon.Pair.{remove_list_key1}
use swindon.Std.HashMap
use swindon.Std.HashMap.{HashMap, get, insert, remove, remove_all}
use swindon.Std.HashSet
use swindon.Lattice.State.{SessionId, Rooms, Lattice, Expires, with_session, at, if_unused}
use swindon.Pool.Types.{
  Namespace, inactive_session, pool_sent, incr, decr, active_sessions, inactive_sessions, Session,
  Pool, emit, new_session,
}
use swindon.Pool.Output.{
  publish_status, session_get, active_status, inactive_status, offline_status,
}

-- `LATTICE_CLEANUP_INTERVAL`
abbrev pub lattice_cleanup_interval : ℕ
lattice_cleanup_interval = 60000

module _ ⦃w : World⦄ ⦃h : Timers Session⦄ where
  unfoldable pub update_activity : SessionId → ℕ → ℕ → Pool → Outcome Pool
  update_activity sess_id activity_ts now p = elim (get p.inactive sess_id) [
    | some sess ↦ do
      p' ← publish_status sess_id active_status now (
          emit (incr active_sessions)
            (emit (decr inactive_sessions) (record p { inactive = remove p.inactive sess_id })))
      ok (record p' {
        active = h.insert p'.active sess_id activity_ts (record sess { status_timestamp = now });
      })
    | none ↦
        let active' = h.update_if_smaller p.active sess_id activity_ts in
        elim (h.get active' sess_id) [
          | some sess ↦ ok (record p {
            active = h.adjust active' sess_id (λ s. record s { status_timestamp = now });
          })
          | none ↦ do
            p' ←
                publish_status sess_id active_status now
                  (record p { active = h.insert active' sess_id activity_ts (new_session now) })
            ok (emit (incr active_sessions) p')
        ]
  ]

  -- The body of the loop of `clean_sessions`, for the session that was popped. `is_open` says
  -- whether the receiver of the pool's messages is still there, without which the send panics.
  unfoldable pub expire_session : Bool → SessionId → Session → ℕ → Pool → Outcome Pool
  expire_session is_open sess_id sess now p =
      let p₁ =
        emit (pool_sent (inactive_session sess_id (length sess.connections) sess.metadata))
          (emit (decr active_sessions) p) in
      elim is_open [
        | false ↦ panic
        | true ↦ elim (HashSet.is_empty sess.connections) [
          | true ↦ do
            p₂ ← publish_status sess_id offline_status now p₁
            ok (record p₂ {
              user_listeners = remove_list_key1 p₂.user_listeners sess.users_lattice.peers sess_id;
            })
          | false ↦ do
            p₂ ← publish_status sess_id inactive_status now p₁
            ok (
                emit (incr inactive_sessions) (record p₂ {
                  inactive = insert p₂.inactive sess_id (record sess { status_timestamp = now });
                }))
        ]
      ]

  -- The `while` of `clean_sessions`; each round pops an entry, so the number of entries is enough
  -- fuel. `now` is `SystemTime::now()`, read once.
  unfoldable pub clean_loop : Bool → ℕ → ℕ → ℕ → Pool → Outcome Pool
  unfolding expire_session
  clean_loop is_open zero timestamp now p = ok p
  clean_loop is_open (suc fuel) timestamp now p = elim (h.peek p.active) [
    | none ↦ ok p
    | some (sess_id, x, sess) ↦ elim (ltb x timestamp) [
      | true ↦ do
        p' ← expire_session is_open sess_id sess now (record p { active = (h.pop p.active).1 })
        clean_loop is_open fuel timestamp now p'
      | false ↦ ok p
    ]
  ]

  abbrev pub next_deadline : Pool → Option ℕ
  next_deadline p = elim (h.peek p.active) [ none ↦ none | some (sess_id, x, sess) ↦ some x ]

  unfoldable pub clean_sessions : Bool → ℕ → ℕ → Pool → Outcome (Option ℕ × Pool)
  unfolding clean_loop
  clean_sessions is_open timestamp now p = do
    p' ← clean_loop is_open (h.len p.active) timestamp now p
    ok (next_deadline p', p')

  -- What `lattice_cleanup` makes of one entry: the new expiry, or `none` to delete the key.
  unfoldable pub expire_values : Bool → ℕ → Expires → Option Expires
  expire_values has_session timestamp with_session = if has_session then some with_session else none
  expire_values has_session timestamp (at x) = if ltb x timestamp then none else some (at x)
  expire_values has_session timestamp (if_unused x) =
      if ltb x timestamp
      then if has_session then some with_session else none
      else some (if_unused x)

  -- The loop over one session's rooms, with the removal of `delete_keys`.
  unfoldable pub clean_rooms : Bool → ℕ → Rooms → Rooms
  unfolding expire_values
  clean_rooms has_session timestamp [] = []
  clean_rooms has_session timestamp ((key, values) ∷ iter) =
      let rest = clean_rooms has_session timestamp iter in
      elim (expire_values has_session timestamp values.expires) [
        | none ↦ rest
        | some expires ↦ (key, record values { expires = expires }) ∷ rest
      ]

  -- The loop over `lat.private`, with the removal of `to_delete`.
  unfoldable pub clean_private : Pool → ℕ → HashMap SessionId Rooms → HashMap SessionId Rooms
  unfolding clean_rooms
  clean_private p timestamp [] = []
  clean_private p timestamp ((sess_id, rooms) ∷ iter) =
      let rest = clean_private p timestamp iter in
      let left = clean_rooms (is_some (session_get p sess_id)) timestamp rooms in
      if HashMap.is_empty left then rest else (sess_id, left) ∷ rest

  unfoldable pub clean_lattices : Pool → ℕ → HashMap Namespace Lattice → HashMap Namespace Lattice
  unfolding clean_private
  clean_lattices p timestamp [] = []
  clean_lattices p timestamp ((name, lat) ∷ iter) =
      (name, record lat { private = clean_private p timestamp lat.private })
      ∷ clean_lattices p timestamp iter

  unfoldable pub lattice_cleanup : ℕ → Pool → Option ℕ × Pool
  unfolding clean_lattices
  lattice_cleanup timestamp p =
      if ltb timestamp (p.last_lattice_cleanup + lattice_cleanup_interval)
      then (
        if HashMap.is_empty p.lattices
            then none
            else some (p.last_lattice_cleanup + lattice_cleanup_interval),
        p,
      )
      else (
        if HashMap.is_empty p.lattices then none else some (timestamp + lattice_cleanup_interval),
        record p {
          lattices = clean_lattices p timestamp p.lattices;
          last_lattice_cleanup = timestamp;
        },
      )

  -- The least of the times that are there.
  abbrev pub earliest : Option ℕ → Option ℕ → Option ℕ
  earliest none b = b
  earliest (some a) none = some a
  earliest (some a) (some b) = if ltb b a then some b else some a

  unfoldable pub cleanup : Bool → ℕ → ℕ → Pool → Outcome (Option ℕ × Pool)
  unfolding clean_sessions lattice_cleanup
  cleanup is_open timestamp now p = do
    (sess_ts, p₁) ← clean_sessions is_open timestamp now p
    let (lattice_ts, p₂) = lattice_cleanup timestamp p₁
    ok (earliest sess_ts lattice_ts, p₂)
