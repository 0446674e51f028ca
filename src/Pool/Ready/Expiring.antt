-- ===== src/Pool/Ready/Expiring.antt =====
-- `expire_session`, the body of the loop of `clean_sessions` in chat/processor/pool.rs.
use swindon.Prelude.{
  ℕ, true, ◌≡◌, refl, some, arith, if◌then◌else◌, string_eq, nat_eq, Bool-cases, inl, inr, length,
  ◌==◌, ◌&&◌, not,
}
use swindon.World.{World}
use swindon.Timers.{Timers}
use swindon.Outcome.{Returns}
use swindon.Std.HashMap.{get, insert, get-insert}
use swindon.Std.HashSet
use swindon.Lattice.State.{SessionId}
use swindon.Pool.Types.{pool_sent, inactive_session, decr, active_sessions, Session, Pool, emit}
use swindon.Pool.Output.{offline_status, inactive_status}
use swindon.Pool.Activity.{expire_session}
use swindon.Pool.Frames.{IsKey, publish_status-EmitsOk}
use swindon.Pool.Keys.{PeersAreKeys}
use swindon.Pool.Sync.Associating.{IsReady}
use swindon.Pool.Ready.Sessions.{put_sessions-IsReady, put_out-IsReady}
use swindon.Pool.Ready.Users.{put_listeners-IsReady}

module _ ⦃w : World⦄ ⦃h : Timers Session⦄ where
  -- The session is out of the active ones; a session with connections is inactive from now on.
  abbrev pub Expired : SessionId → Session → ℕ → Pool → Pool → Type 0
  Expired sid sess now p q =
      (q.active ≡ p.active)
      × ((j : SessionId)
          → get q.inactive j ≡ (
              if (sid == j) && not (HashSet.is_empty sess.connections)
              then some (record sess { status_timestamp = now })
              else get p.inactive j))

  pub expire_session-Expired :
      (sid : SessionId) (sess : Session) (now : ℕ) (p : Pool)
      → IsKey sid
      → Returns (Expired sid sess now p) (expire_session true sid sess now p)
  unfolding expire_session
  expire_session-Expired sid sess now p key =
      let p₁ =
        emit (pool_sent (inactive_session sid (length sess.connections) sess.metadata))
          (emit (decr active_sessions) p) in
      elim (Bool-cases (HashSet.is_empty sess.connections)) [
        | inl b ↦
            let (out, e) = publish_status-EmitsOk sid offline_status now p₁ key in
            rw (b, expire_session, e) (refl, λ j. ground arith)
        | inr b ↦
            let (out, e) = publish_status-EmitsOk sid inactive_status now p₁ key in
            rw (b, expire_session, e)
              (
                refl,
                λ j.
                    ground
                      (arith, get-insert p.inactive sid j (record sess { status_timestamp = now })),
              )
      ]

  pub expire_session-IsReady :
      (sid : SessionId) (sess : Session) (now : ℕ) (p : Pool)
      → IsKey sid
      → PeersAreKeys sess
      → IsReady p
      → Returns IsReady (expire_session true sid sess now p)
  unfolding expire_session
  expire_session-IsReady sid sess now p key ks r =
      let p₁ =
        emit (pool_sent (inactive_session sid (length sess.connections) sess.metadata))
          (emit (decr active_sessions) p) in
      let sess' : Session = record sess { status_timestamp = now } in
      elim (Bool-cases (HashSet.is_empty sess.connections)) [
        | inl b ↦
            let (out, e) = publish_status-EmitsOk sid offline_status now p₁ key in
            rw (b, expire_session, e) (put_listeners-IsReady p _ out r)
        | inr b ↦
            let (out, e) = publish_status-EmitsOk sid inactive_status now p₁ key in
            rw (b, expire_session, e)
              (put_out-IsReady _ _ (
                put_sessions-IsReady p p.active (insert p.inactive sid sess') r.keys.active
                  (λ j s q. ground (
                    arith,
                    get-insert p.inactive sid j sess',
                    r.keys.inactive j s,
                    q,
                    ks,
                    key,
                    string_eq.beq_iff sid j,
                  ))
                  r))
      ]
