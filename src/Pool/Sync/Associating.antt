-- ===== src/Pool/Sync/Associating.antt =====
-- `add_connection` and `associate` of chat/processor/pool.rs, and readiness.
use swindon.Prelude.{
  ℕ, ◌≡◌, true, List, none, some, arith, string_eq, nat_eq, is_some, Option-cases, inl, inr,
}
use swindon.World.{World}
use swindon.Timers.{Timers}
use swindon.Outcome.{Returns}
use swindon.Std.HashMap.{get, remove, get-insert, get-remove}
use swindon.Std.HashSet.{contains}
use swindon.Lattice.State.{SessionId}
use swindon.Pool.Types.{Cid, Namespace, Effect, Session, NewConnection, Pool, new_connection}
use swindon.Pool.Connections.{add_connection, associated, associate, finish_associate}
use swindon.Pool.Frames.{IsKey, flush_buffer-Emits, send_lattices-Emits}
use swindon.Pool.Keys.{HasKeys}
use swindon.Pool.Keys.Entering.{enter_session-Entered, send_users-ok}
use swindon.Pool.Sync.Tables.{InSync}
use swindon.Pool.Sync.Promoting.{promote_topics-Promotes}

module _ ⦃w : World⦄ ⦃h : Timers Session⦄ where
  -- What a pool keeps so that no event that it accepts makes it panic.
  pub record IsReady (p : Pool) : Type 0 where
    pub sync : InSync p
    pub keys : HasKeys p

  -- A connection whose id is not in use is added without touching the others.
  pub add_connection-IsReady :
      (cid : Cid) (channel : ℕ) (p : Pool)
      → get p.pending_connections cid ≡ none
      → get p.connections cid ≡ none
      → IsReady p
      → IsReady (add_connection cid channel p)
  unfolding add_connection
  add_connection-IsReady cid channel p a b r =
      let conn = new_connection cid channel in
      unfold new_connection contains in
      record {
        sync = record {
          exact = λ t c.
              ground (arith, get-insert p.pending_connections cid c conn, r.sync.exact t c, a, b);
          apart = λ c.
              ground (arith, get-insert p.pending_connections cid c conn, r.sync.apart c, a, b);
          distinct = r.sync.distinct;
        };
        keys = record {
          active = r.keys.active;
          inactive = r.keys.inactive;
          pending = λ c n e.
              ground (arith, get-insert p.pending_connections cid c conn, r.keys.pending c n, e);
          joined = r.keys.joined;
        };
      }

  -- The pending connection's lattices are all there when it is associated.
  abbrev pub LatticesExist : Pool → Cid → Type 0
  LatticesExist p cid =
      (conn : NewConnection) (ns : Namespace)
      → get p.pending_connections cid ≡ some conn
      → contains conn.lattices ns ≡ true
      → is_some (get p.lattices ns) ≡ true

  finish_associate-IsReady :
      (cid : Cid) (sid : SessionId) (ts now : ℕ) (metadata : w.Json) (p : Pool) (nc : NewConnection)
      (out : List Effect)
      → IsReady p
      → IsKey sid
      → get p.pending_connections cid ≡ some nc
      → Returns IsReady (
          finish_associate cid sid ts metadata now
            (associated nc sid)
            nc.users_lattice
            (record p { pending_connections = remove p.pending_connections cid; out = out }))
  unfolding finish_associate associated
  finish_associate-IsReady cid sid ts now metadata p nc out r key e =
      let conn = associated nc sid in
      let p₀ : Pool = record p {
        pending_connections = remove p.pending_connections cid;
        out = out;
      } in
      let (table, f, at, d) =
        promote_topics-Promotes cid nc.topics p₀
          (λ t c. ground (arith, r.sync.exact t cid, e, c)) in
      let p₁ : Pool = record p₀ { topics = table } in
      let k₁ : HasKeys p₁ = record {
        active = r.keys.active;
        inactive = r.keys.inactive;
        pending =
            λ c n g. ground (arith, get-remove p.pending_connections cid c, r.keys.pending c n, g);
        joined = r.keys.joined;
      } in
      let entered =
        enter_session-Entered cid sid ts now metadata conn nc.users_lattice p₁ key k₁
          (r.keys.pending cid nc e) in
      let p₂ : Pool = record p₁ {
        active = entered.active';
        inactive = entered.inactive';
        out = entered.out';
      } in
      let (listeners, out', g) = send_users-ok sid now conn p₂ entered.keys entered.here in
      rw (f, entered.returns, g)
        (record {
          sync = record {
            exact = λ t c. ground (
              arith,
              at t c,
              r.sync.exact t c,
              r.sync.apart c,
              e,
              get-remove p.pending_connections cid c,
              get-insert p.connections cid c conn,
            );
            apart = λ c. ground (
              arith,
              r.sync.apart c,
              get-remove p.pending_connections cid c,
              get-insert p.connections cid c conn,
            );
            distinct = d r.sync.distinct;
          };
          keys = record {
            active = entered.keys.active;
            inactive = entered.keys.inactive;
            pending = entered.keys.pending;
            joined = λ c n g'.
                ground (arith, get-insert p.connections cid c conn, r.keys.joined c n, g', key);
          };
        })

  -- `associate` does not panic and keeps the pool ready, provided that the session id is a lattice
  -- key and that the lattices which the pending connection is attached to exist.
  pub associate-IsReady :
      (cid : Cid) (sid : SessionId) (ts now : ℕ) (metadata : w.Json) (p : Pool)
      → IsReady p
      → IsKey sid
      → LatticesExist p cid
      → Returns IsReady (associate cid sid ts metadata now p)
  unfolding associate associated
  associate-IsReady cid sid ts now metadata p r key l =
      elim (Option-cases (get p.pending_connections cid)) [
        | inl e ↦ rw (e, associate) r
        | inr (nc, e) ↦
            let p₀ : Pool = record p { pending_connections = remove p.pending_connections cid } in
            let (o₁, f) = flush_buffer-Emits nc.channel nc.message_buffer p₀ in
            let (o₂, g) =
              send_lattices-Emits (associated nc sid) sid nc.lattices (record p₀ { out = o₁ })
                (λ ns c. l nc ns e c) in
            rw (e, associate, f, g)
              (finish_associate-IsReady cid sid ts now metadata p nc o₂ r key e)
      ]
