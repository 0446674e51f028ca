-- ===== src/Pool/Keys/Exiting.antt =====
-- `leave_session` of chat/processor/pool.rs, and the ids that a pool announces.
use swindon.Prelude.{
  ℕ, ◌≡◌, refl, ◌==◌, List, [], ◌∷◌, Option, none, some, arith, if◌then◌else◌, string_eq, nat_eq,
  Option-cases, Bool-cases, inl, inr, ◌∙◌, option_map,
}
use swindon.World.{World}
use swindon.Timers.{Timers}
use swindon.Outcome.{Outcome, ok}
use swindon.Pair.{Pairs}
use swindon.Std.HashMap.{HashMap, get, insert, remove, get-insert, get-remove}
use swindon.Std.HashSet
use swindon.Lattice.State.{SessionId, Lattice}
use swindon.Pool.Types.{Cid, Namespace, Effect, Session, Connection, Pool}
use swindon.Pool.Attach.{remove_lattice, remove_lattices, leave_lattice}
use swindon.Pool.Output.{offline_status}
use swindon.Pool.Connections.{
  leave_users, drop_inactive, leave_inactive, leave_active, leave_session,
}
use swindon.Pool.Frames.{IsKey, publish_status-EmitsOk}
use swindon.Pool.Keys.{PeersAreKeys, HasKeys}

module _ ⦃w : World⦄ ⦃h : Timers Session⦄ where
  -- Lattices and output may change, the session's own connections and peers do not.
  abbrev pub Detached : Session → Pool → Session × Pool → Type 0
  Detached sess p r =
      (lats : HashMap Namespace Lattice) × (out : List Effect) × (r.1
        ≡ record p { lattices = lats; out = out })
      × (r.0.users_lattice ≡ sess.users_lattice)
      × (r.0.connections ≡ sess.connections)

  leave_lattice-frame :
      (sid : SessionId) (ns : Namespace) (p : Pool)
      → (lats : HashMap Namespace Lattice) × (out : List Effect) × (leave_lattice sid ns p
          ≡ record p { lattices = lats; out = out })
  unfolding leave_lattice
  leave_lattice-frame sid ns p =
      ((leave_lattice sid ns p).lattices, (leave_lattice sid ns p).out, ground arith)

  pub remove_lattice-Detached :
      (sess : Session) (sid : SessionId) (cid : Cid) (ns : Namespace) (p : Pool)
      → Detached sess p (remove_lattice sess sid cid ns p)
  unfolding remove_lattice
  remove_lattice-Detached sess sid cid ns p =
      let (lats, out, e) = leave_lattice-frame sid ns p in
      (
        (remove_lattice sess sid cid ns p).1.lattices,
        (remove_lattice sess sid cid ns p).1.out,
        ground (arith, e),
        ground arith,
        ground arith,
      )

  remove_lattices-Detached :
      (names : List Namespace) (sess : Session) (sid : SessionId) (cid : Cid) (p : Pool)
      → Detached sess p (remove_lattices sess sid cid names p)
  unfolding remove_lattices
  remove_lattices-Detached [] sess sid cid p = (p.lattices, p.out, refl, refl, refl)
  remove_lattices-Detached (ns ∷ names) sess sid cid p =
      let (l₁, o₁, e₁, u₁, c₁) = remove_lattice-Detached sess sid cid ns p in
      let s₁ = (remove_lattice sess sid cid ns p).0 in
      let (l₂, o₂, e₂, u₂, c₂) =
        remove_lattices-Detached names s₁ sid cid (record p { lattices = l₁; out = o₁ }) in
      rw (remove_lattices, e₁) (l₂, o₂, e₂, u₂ ∙ u₁, c₂ ∙ c₁)

  leave_users-frame :
      (sess : Session) (sid : SessionId) (cid : Cid) (conn : Connection) (p : Pool)
      → PeersAreKeys sess
      → let (s, q) = leave_users sess sid cid conn p in
        (q ≡ record p { user_listeners = q.user_listeners }) × PeersAreKeys s
  unfolding leave_users
  leave_users-frame sess sid cid conn p k = (ground arith, ground arith)

  -- Lattices, listeners, inactive sessions and output may have changed.
  pub record Left (p : Pool) (m : Outcome Pool) : Type 0 where
    pub lattices' : HashMap Namespace Lattice
    pub listeners' : Pairs SessionId SessionId
    pub active' : h.Map
    pub inactive' : HashMap SessionId Session
    pub out' : List Effect
    pub returns :
        m
        ≡ ok (record p {
          lattices = lattices';
          user_listeners = listeners';
          active = active';
          inactive = inactive';
          out = out';
        })
    pub keys : HasKeys (record p { active = active'; inactive = inactive' })

  drop_inactive-Left :
      (sid : SessionId) (now : ℕ) (sess : Session) (p : Pool)
      → IsKey sid
      → HasKeys p
      → Left p (drop_inactive sid now sess p)
  unfolding drop_inactive
  drop_inactive-Left sid now sess p key k = elim (Bool-cases (HashSet.is_empty sess.connections)) [
    | inr b ↦
        rw (b, drop_inactive)
          (record {
            lattices' = p.lattices;
            listeners' = p.user_listeners;
            active' = p.active;
            inactive' = p.inactive;
            out' = p.out;
            returns = refl;
            keys = k;
          })
    | inl b ↦
        let (out, e) = publish_status-EmitsOk sid offline_status now p key in
        rw (b, drop_inactive, e)
          (record {
            lattices' = p.lattices;
            listeners' = _;
            active' = p.active;
            inactive' = remove p.inactive sid;
            out' = _;
            returns = refl;
            keys = record {
              active = k.active;
              inactive = λ j s g. ground (arith, get-remove p.inactive sid j, k.inactive j s, g);
              pending = k.pending;
              joined = k.joined;
            };
          })
  ]

  leave_inactive-Left :
      (cid : Cid) (conn : Connection) (now : ℕ) (sess : Session) (p : Pool)
      → IsKey conn.session_id
      → PeersAreKeys sess
      → HasKeys p
      → Left p (leave_inactive cid conn now sess p)
  unfolding leave_inactive
  leave_inactive-Left cid conn now sess p key ks k =
      let sid = conn.session_id in
      let s₁ : Session = record sess {
        status_timestamp = now;
        connections = HashSet.remove sess.connections cid;
      } in
      let (l, o, e, u, c) = remove_lattices-Detached conn.lattices s₁ sid cid p in
      let s₂ = (remove_lattices s₁ sid cid conn.lattices p).0 in
      let p₂ : Pool = record p { lattices = l; out = o } in
      let k₂ : PeersAreKeys s₂ = rw u ks in
      let (f, k₃) = leave_users-frame s₂ sid cid conn p₂ k₂ in
      let (s₃, q) = leave_users s₂ sid cid conn p₂ in
      let p₄ : Pool = record p₂ {
        user_listeners = q.user_listeners;
        inactive = insert p.inactive sid s₃;
      } in
      let k₄ : HasKeys p₄ = record {
        active = k.active;
        inactive = λ j s g. ground (
          arith,
          get-insert p.inactive sid j s₃,
          k.inactive j s,
          g,
          k₃,
          key,
          string_eq.beq_iff sid j,
        );
        pending = k.pending;
        joined = k.joined;
      } in
      let left = drop_inactive-Left sid now s₃ p₄ key k₄ in
      rw (e, leave_inactive)
        (rw f (record {
          lattices' = left.lattices';
          listeners' = left.listeners';
          active' = left.active';
          inactive' = left.inactive';
          out' = left.out';
          returns = left.returns;
          keys = record {
            active = left.keys.active;
            inactive = left.keys.inactive;
            pending = left.keys.pending;
            joined = left.keys.joined;
          };
        }))

  leave_active-HasKeys :
      (cid : Cid) (sid : SessionId) (p : Pool) → HasKeys p → HasKeys (leave_active cid sid p)
  unfolding leave_active
  leave_active-HasKeys cid sid p k =
      let drop = λ (s : Session). record s { connections = HashSet.remove s.connections cid } in
      record {
        active = λ j s g.
            keep j s (h.get p.active j) refl (ground (arith, h.get-adjust p.active sid j drop, g));
        inactive = k.inactive;
        pending = k.pending;
        joined = k.joined;
      }
    where
      keep :
          (j : SessionId) (s : Session) (o : Option Session)
          → h.get p.active j ≡ o
          → (if sid == j
              then option_map
                  (λ (x : Session). record x { connections = HashSet.remove x.connections cid })
                  o
              else o)
            ≡ some s
          → IsKey j × PeersAreKeys s
      keep j s none e g = ground (arith, g)
      keep j s (some x) e g = ground (arith, k.active j x e, g)

  -- Leaving a session returns, whichever kind of session it is.
  pub leave_session-Left :
      (cid : Cid) (conn : Connection) (now : ℕ) (p : Pool)
      → IsKey conn.session_id
      → HasKeys p
      → Left p (leave_session cid conn now p)
  unfolding leave_session leave_active
  leave_session-Left cid conn now p key k = elim (Option-cases (get p.inactive conn.session_id)) [
    | inl e ↦
        rw (e, leave_session)
          (record {
            lattices' = p.lattices;
            listeners' = p.user_listeners;
            active' = _;
            inactive' = p.inactive;
            out' = p.out;
            returns = refl;
            keys = leave_active-HasKeys cid conn.session_id p k;
          })
    | inr (sess, e) ↦
        let left =
          leave_inactive-Left cid conn now sess p key (k.inactive conn.session_id sess e).1 k in
        let kept =
          leave_active-HasKeys cid conn.session_id
            (record p { active = left.active'; inactive = left.inactive' }) left.keys in
        rw (e, leave_session, left.returns)
          (record {
            lattices' = left.lattices';
            listeners' = left.listeners';
            active' = _;
            inactive' = left.inactive';
            out' = left.out';
            returns = refl;
            keys = record {
              active = kept.active;
              inactive = kept.inactive;
              pending = kept.pending;
              joined = kept.joined;
            };
          })
  ]
