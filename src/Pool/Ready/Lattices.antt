-- ===== src/Pool/Ready/Lattices.antt =====
-- Readiness and the lattice operations of chat/processor/pool.rs.
use swindon.Prelude.{ℕ, ◌≡◌, refl, List, [], some, arith, string_eq, nat_eq, Option-cases, inl, inr}
use swindon.World.{World}
use swindon.Timers.{Timers}
use swindon.Std.HashMap.{HashMap, get, upsert}
use swindon.Std.HashSet
use swindon.Std.HashSet.{HashSet}
use swindon.Lattice.State.{SessionId, Lattice}
use swindon.Pool.Types.{Cid, Namespace, Effect, Session, Connection, Pool}
use swindon.Pool.Output.{session_get, session_adjust, lattice_from}
use swindon.Pool.Attach.{remove_lattice}
use swindon.Pool.Lattices.{attach_connection, lattice_attach, detach_connection, lattice_detach}
use swindon.Pool.Keys.{PeersAreKeys, HasKeys}
use swindon.Pool.Keys.Exiting.{remove_lattice-Detached}
use swindon.Pool.Sync.Associating.{IsReady}
use swindon.Pool.Ready.Topics.{HasKeys-fields}
use swindon.Pool.Ready.Users.{joined_after}
use swindon.Pool.Ready.Sessions.{
  InSync-fields, put_pending-IsReady, put_joined-IsReady, session_adjust-IsReady, put_out-IsReady,
}

module _ ⦃w : World⦄ ⦃h : Timers Session⦄ where
  pub put_lattices-IsReady :
      (p : Pool) (l : HashMap Namespace Lattice) (out : List Effect)
      → IsReady p
      → IsReady (record p { lattices = l; out = out })
  put_lattices-IsReady p l out r =
      let q : Pool = record p { lattices = l; out = out } in
      record {
        sync = InSync-fields p q refl refl refl r.sync;
        keys = HasKeys-fields p q refl refl refl refl r.keys;
      }

  lattice_from-IsReady :
      (ch : ℕ) (ns : Namespace) (sid : SessionId) (lat : Lattice) (p : Pool)
      → IsReady p
      → IsReady (lattice_from ch ns sid lat p)
  unfolding lattice_from
  lattice_from-IsReady ch ns sid lat p r = put_out-IsReady p _ r

  attach_connection-IsReady :
      (cid : Cid) (ns : Namespace) (conn : Connection) (p : Pool)
      → get p.connections cid ≡ some conn
      → IsReady p
      → IsReady (attach_connection cid ns conn p)
  unfolding attach_connection
  attach_connection-IsReady cid ns conn p e r =
      elim (Option-cases (session_get p conn.session_id)) [
        | inl n ↦ rw (attach_connection, n) r
        | inr (sess, n) ↦
            let f = λ (s : Session). record s {
              lattices = upsert s.lattices ns [] (λ cids. HashSet.insert cids cid);
            } in
            let p₁ = session_adjust p conn.session_id f in
            let conn' : Connection = record conn { lattices = HashSet.insert conn.lattices ns } in
            let r₂ =
              put_joined-IsReady p₁ cid conn conn' (joined_after p conn.session_id f cid conn e)
                refl refl (session_adjust-IsReady p conn.session_id f (λ x k. k) r) in
            elim (Option-cases (get p₁.lattices ns)) [
              | inl m ↦ rw (attach_connection, n, m) r₂
              | inr (lat, m) ↦
                  rw (attach_connection, n, m)
                    (lattice_from-IsReady conn.channel ns conn.session_id lat _ r₂)
            ]
      ]

  pub lattice_attach-IsReady :
      (cid : Cid) (ns : Namespace) (p : Pool) → IsReady p → IsReady (lattice_attach cid ns p)
  unfolding lattice_attach
  lattice_attach-IsReady cid ns p r = elim (Option-cases (get p.connections cid)) [
    | inr (conn, e) ↦ rw (e, lattice_attach) (attach_connection-IsReady cid ns conn p e r)
    | inl n ↦ elim (Option-cases (get p.pending_connections cid)) [
      | inr (conn, e) ↦
          rw (n, lattice_attach, e)
            (put_pending-IsReady p cid conn _ e refl (r.keys.pending cid conn e) r)
      | inl e ↦ rw (n, lattice_attach, e) r
    ]
  ]

  session_get-keys :
      (p : Pool) (sid : SessionId) (s : Session)
      → HasKeys p
      → session_get p sid ≡ some s
      → PeersAreKeys s
  unfolding session_get
  session_get-keys p sid s k e = elim (Option-cases (h.get p.active sid)) [
    | inl n ↦ (k.inactive sid s (rw (session_get, n) at e)).1
    | inr (x, n) ↦ ground (arith, e, n, k.active sid x n)
  ]

  detach_connection-IsReady :
      (cid : Cid) (ns : Namespace) (conn : Connection) (p : Pool)
      → get p.connections cid ≡ some conn
      → IsReady p
      → IsReady (detach_connection cid ns conn p)
  unfolding detach_connection
  detach_connection-IsReady cid ns conn p e r =
      elim (Option-cases (session_get p conn.session_id)) [
        | inl n ↦ rw (detach_connection, n) r
        | inr (sess, n) ↦
            let (l, o, g, u, c) = remove_lattice-Detached sess conn.session_id cid ns p in
            let sess' = (remove_lattice sess conn.session_id cid ns p).0 in
            let p₁ : Pool = record p { lattices = l; out = o } in
            let ks : PeersAreKeys sess' = rw u (session_get-keys p conn.session_id sess r.keys n) in
            let conn' : Connection = record conn { lattices = HashSet.remove conn.lattices ns } in
            rw (detach_connection, n, g)
              (put_joined-IsReady (session_adjust p₁ conn.session_id (λ s. sess')) cid conn conn'
                (joined_after p₁ conn.session_id (λ s. sess') cid conn e) refl refl
                (session_adjust-IsReady p₁ conn.session_id (λ s. sess') (λ x k. ks)
                  (put_lattices-IsReady p l o r)))
      ]

  pub lattice_detach-IsReady :
      (cid : Cid) (ns : Namespace) (p : Pool) → IsReady p → IsReady (lattice_detach cid ns p)
  unfolding lattice_detach
  lattice_detach-IsReady cid ns p r = elim (Option-cases (get p.connections cid)) [
    | inr (conn, e) ↦ rw (e, lattice_detach) (detach_connection-IsReady cid ns conn p e r)
    | inl n ↦ elim (Option-cases (get p.pending_connections cid)) [
      | inr (conn, e) ↦
          rw (n, lattice_detach, e)
            (put_pending-IsReady p cid conn _ e refl (r.keys.pending cid conn e) r)
      | inl e ↦ rw (n, lattice_detach, e) r
    ]
  ]
