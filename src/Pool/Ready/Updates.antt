-- ===== src/Pool/Ready/Updates.antt =====
-- Readiness and `lattice_update` of chat/processor/pool.rs.
use swindon.Prelude.{
  ℕ, refl, ◌||◌, List, [], ◌∷◌, arith, string_eq, nat_eq, Option-cases, Bool-cases, inl, inr,
}
use swindon.World.{World}
use swindon.Timers.{Timers}
use swindon.Pool.Lattices.{subscribe_sessions}
use swindon.Std.HashMap
use swindon.Std.HashMap.{HashMap, get, insert, remove, contains_key}
use swindon.Std.HashSet
use swindon.Std.HashSet.{HashSet}
use swindon.Lattice.State.{SessionId, Key, Rooms, Lattice, Delta, update}
use swindon.Pool.Types.{Namespace, ConnectionMessage, Session, Pool}
use swindon.Pool.Output.{session_get}
use swindon.Pool.Updates.{
  send_followers, send_shared_sessions, send_shared, send_private, announce, open_lattice,
  lattice_update, rooms_for,
}
use swindon.Pool.Frames.{Emits, send_all-Emits}
use swindon.Pool.Sync.Associating.{IsReady}
use swindon.Pool.Ready.Lattices.{put_lattices-IsReady}

module _ ⦃w : World⦄ ⦃h : Timers Session⦄ where
  send_followers-Emits :
      (ns : Namespace) (msg : ConnectionMessage) (sess : Session) (p : Pool)
      → Emits p (send_followers ns msg sess p)
  unfolding send_followers
  send_followers-Emits ns msg sess p = elim (Option-cases (get sess.lattices ns)) [
    | inl e ↦ rw (e, send_followers) (p.out, refl)
    | inr (cids, e) ↦ rw (e, send_followers) (send_all-Emits msg cids p)
  ]

  send_shared_sessions-Emits :
      (sids : List SessionId) (ns : Namespace) (msg : ConnectionMessage)
      (private : HashMap SessionId Rooms) (sent : HashSet SessionId) (p : Pool)
      → Emits p (send_shared_sessions ns msg private sids sent p).1
  unfolding send_shared_sessions
  send_shared_sessions-Emits [] ns msg private sent p = (p.out, refl)
  send_shared_sessions-Emits (sid ∷ sids) ns msg private sent p =
      elim (Bool-cases (HashSet.contains sent sid || contains_key private sid)) [
        | inl b ↦
            rw (send_shared_sessions, b) (send_shared_sessions-Emits sids ns msg private sent p)
        | inr b ↦ elim (Option-cases (session_get p sid)) [
          | inl e ↦
              rw (send_shared_sessions, b, e)
                (send_shared_sessions-Emits sids ns msg private sent p)
          | inr (sess, e) ↦
              let (out, f) = send_followers-Emits ns msg sess p in
              rw (send_shared_sessions, b, e, f)
                (send_shared_sessions-Emits sids ns msg private (HashSet.insert sent sid)
                  (record p { out = out }))
        ]
      ]

  send_shared-Emits :
      (rooms : List Key) (ns : Namespace) (msg : ConnectionMessage)
      (private : HashMap SessionId Rooms) (subs : HashMap Key (HashSet SessionId))
      (sent : HashSet SessionId) (p : Pool)
      → Emits p (send_shared ns msg private subs rooms sent p)
  unfolding send_shared
  send_shared-Emits [] ns msg private subs sent p = (p.out, refl)
  send_shared-Emits (room ∷ rooms) ns msg private subs sent p =
      elim (Option-cases (get subs room)) [
        | inl e ↦ rw (send_shared, e) (send_shared-Emits rooms ns msg private subs sent p)
        | inr (sids, e) ↦
            let (out, f) = send_shared_sessions-Emits sids ns msg private sent p in
            let sent' = (send_shared_sessions ns msg private sids sent p).0 in
            rw (send_shared, e, f)
              (send_shared-Emits rooms ns msg private subs sent' (record p { out = out }))
      ]

  send_private-Emits :
      (iter : HashMap SessionId Rooms) (ns : Namespace) (lat : Lattice) (pubdata : Rooms)
      (new_keys : HashMap SessionId (List Key)) (p : Pool)
      → Emits p (send_private ns lat pubdata new_keys iter p)
  unfolding send_private
  send_private-Emits [] ns lat pubdata new_keys p = (p.out, refl)
  send_private-Emits ((sid, rooms) ∷ iter) ns lat pubdata new_keys p =
      elim (Option-cases (session_get p sid)) [
        | inl e ↦
            rw (send_private, e) (send_private-Emits iter ns lat pubdata (remove new_keys sid) p)
        | inr (sess, e) ↦
            let msg = ConnectionMessage.lattice ns (rooms_for lat pubdata new_keys sid rooms) in
            let (out, f) = send_followers-Emits ns msg sess p in
            rw (send_private, e, f)
              (send_private-Emits iter ns lat pubdata (remove new_keys sid)
                (record p { out = out }))
      ]

  announce-Emits :
      (ns : Namespace) (lat : Lattice) (new_keys : HashMap SessionId (List Key)) (delta : Delta)
      (p : Pool)
      → Emits p (announce ns lat new_keys delta p)
  unfolding announce
  announce-Emits ns lat new_keys delta p =
      let msg = ConnectionMessage.lattice ns delta.shared in
      let (out, f) =
        send_shared-Emits (HashMap.keys delta.shared) ns msg delta.private lat.subscriptions [] p in
      rw f (send_private-Emits delta.private ns lat delta.shared new_keys (record p { out = out }))

  open_lattice-Emits : (ns : Namespace) (p : Pool) → Emits p (open_lattice ns p).1
  unfolding open_lattice
  open_lattice-Emits ns p = ((open_lattice ns p).1.out, ground arith)

  -- `lattice_update` keeps the pool ready.
  pub lattice_update-IsReady :
      (ns : Namespace) (now : ℕ) (delta : Delta) (p : Pool)
      → IsReady p
      → IsReady (lattice_update ns now delta p)
  unfolding lattice_update
  lattice_update-IsReady ns now delta p r =
      let (out, e) = open_lattice-Emits ns p in
      let lat = (open_lattice ns p).0 in
      let (subs, new_keys) = subscribe_sessions delta.private lat.subscriptions [] in
      let (lat', left) = update now (record lat { subscriptions = subs }) delta in
      let p₂ : Pool = record p { out = out; lattices = insert p.lattices ns lat' } in
      let (out', f) = announce-Emits ns lat' new_keys left p₂ in
      rw (e, f) (put_lattices-IsReady p _ out' r)
