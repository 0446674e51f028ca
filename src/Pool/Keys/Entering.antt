-- ===== src/Pool/Keys/Entering.antt =====
-- `enter_session` and `send_users` of chat/processor/pool.rs, and the ids that a pool announces.
use swindon.Prelude.{
  ℕ, ◌+◌, ◌≡◌, refl, true, List, none, some, arith, All, string_eq, nat_eq, is_some, Option-cases,
  Bool-cases, inl, inr,
}
use swindon.World.{World}
use swindon.Timers.{Timers}
use swindon.Outcome.{Outcome, ok}
use swindon.Pair.{Pairs, insert_list_key1}
use swindon.Std.HashMap.{HashMap, get, remove, get-remove}
use swindon.Std.HashSet.{HashSet}
use swindon.Lattice.State.{SessionId}
use swindon.Pool.Types.{Cid, Effect, Session, Connection, Pool, new_session}
use swindon.Pool.Attach.{copy_attachments}
use swindon.Pool.Output.{active_status}
use swindon.Pool.Connections.{join_session, enter_session, send_users}
use swindon.Pool.Frames.{IsKey, publish_status-EmitsOk, get_user_statuses-ok}
use swindon.Pool.Keys.{extend-All, PeersAreKeys, HasKeys}

module _ ⦃w : World⦄ where
  join_session-keys :
      (sess : Session) (conn : Connection) (cid : Cid) (users : HashSet SessionId)
      (metadata : w.Json) (now : ℕ)
      → PeersAreKeys sess
      → All IsKey users
      → PeersAreKeys (join_session sess conn cid users metadata now)
  unfolding join_session copy_attachments
  join_session-keys sess conn cid users metadata now k u =
      ground (arith, extend-All IsKey sess.users_lattice.peers users k u)

  new_session-keys : (now : ℕ) → PeersAreKeys (new_session now)
  unfolding new_session
  new_session-keys now = tt

module _ ⦃w : World⦄ ⦃h : Timers Session⦄ where
  -- The session is active afterwards, and only sessions and output changed.
  pub record Entered (sid : SessionId) (p : Pool) (m : Outcome Pool) : Type 0 where
    pub active' : h.Map
    pub inactive' : HashMap SessionId Session
    pub out' : List Effect
    pub returns : m ≡ ok (record p { active = active'; inactive = inactive'; out = out' })
    pub here : is_some (h.get active' sid) ≡ true
    pub keys : HasKeys (record p { active = active'; inactive = inactive'; out = out' })

  module _ (cid : Cid) (sid : SessionId) (ts now : ℕ) (metadata : w.Json) (conn : Connection)
      (users : HashSet SessionId) (p : Pool) (key : IsKey sid) (k : HasKeys p)
      (u : All IsKey users) where
    enter_inactive :
        (sess : Session)
        → get p.inactive sid ≡ some sess
        → Entered sid p (enter_session cid sid ts metadata now conn users p)
    unfolding enter_session
    enter_inactive sess e =
        let left : Pool = record p { inactive = remove p.inactive sid } in
        let (out, f) = publish_status-EmitsOk sid active_status now left key in
        let sess' = join_session sess conn cid users metadata now in
        let k' = join_session-keys sess conn cid users metadata now (k.inactive sid sess e).1 u in
        rw (e, enter_session, f)
          (record {
            active' = h.insert p.active sid ts sess';
            inactive' = remove p.inactive sid;
            out' = _;
            returns = refl;
            here =
                ground (arith, h.get-insert p.active sid sid ts sess', string_eq.beq_iff sid sid);
            keys = record {
              active = λ j s g. ground (
                arith,
                h.get-insert p.active sid j ts sess',
                k.active j s,
                g,
                k',
                key,
                string_eq.beq_iff sid j,
              );
              inactive = λ j s g. ground (arith, get-remove p.inactive sid j, k.inactive j s, g);
              pending = k.pending;
              joined = k.joined;
            };
          })

    enter_active :
        (sess : Session)
        → get p.inactive sid ≡ none
        → h.get p.active sid ≡ some sess
        → Entered sid p (enter_session cid sid ts metadata now conn users p)
    unfolding enter_session
    enter_active sess n e =
        let expire = ts + p.new_connection_timeout in
        let join = λ (s : Session). join_session s conn cid users metadata now in
        let k' = join_session-keys sess conn cid users metadata now (k.active sid sess e).1 u in
        rw (n, enter_session, e)
          (record {
            active' = h.adjust (h.update p.active sid expire) sid join;
            inactive' = p.inactive;
            out' = p.out;
            returns = refl;
            here = ground (
              arith,
              h.get-adjust (h.update p.active sid expire) sid sid join,
              h.get-update p.active sid sid expire,
              string_eq.beq_iff sid sid,
              e,
            );
            keys = record {
              active = λ j s g. ground (
                arith,
                h.get-adjust (h.update p.active sid expire) sid j join,
                h.get-update p.active sid j expire,
                k.active j s,
                string_eq.beq_iff sid j,
                e,
                g,
                k',
                key,
              );
              inactive = k.inactive;
              pending = k.pending;
              joined = k.joined;
            };
          })

    enter_new :
        get p.inactive sid ≡ none
        → h.get p.active sid ≡ none
        → Entered sid p (enter_session cid sid ts metadata now conn users p)
    unfolding enter_session
    enter_new n e =
        let expire = ts + p.new_connection_timeout in
        let sess' = join_session (new_session now) conn cid users metadata now in
        let added : Pool = record p { active = h.insert p.active sid expire sess' } in
        let (out, f) = publish_status-EmitsOk sid active_status now added key in
        let k' =
          join_session-keys (new_session now) conn cid users metadata now (new_session-keys now)
            u in
        rw (n, enter_session, e, f)
          (record {
            active' = h.insert p.active sid expire sess';
            inactive' = p.inactive;
            out' = _;
            returns = refl;
            here =
                ground
                  (arith, h.get-insert p.active sid sid expire sess', string_eq.beq_iff sid sid);
            keys = record {
              active = λ j s g. ground (
                arith,
                h.get-insert p.active sid j expire sess',
                k.active j s,
                g,
                k',
                key,
                string_eq.beq_iff sid j,
              );
              inactive = k.inactive;
              pending = k.pending;
              joined = k.joined;
            };
          })

    pub enter_session-Entered : Entered sid p (enter_session cid sid ts metadata now conn users p)
    enter_session-Entered = elim (Option-cases (get p.inactive sid)) [
      | inr (sess, e) ↦ enter_inactive sess e
      | inl n ↦ elim (Option-cases (h.get p.active sid)) [
        | inr (sess, e) ↦ enter_active sess n e
        | inl e ↦ enter_new n e
      ]
    ]

  pub send_users-ok :
      (sid : SessionId) (now : ℕ) (conn : Connection) (p : Pool)
      → HasKeys p
      → is_some (h.get p.active sid) ≡ true
      → (listeners : Pairs SessionId SessionId) × (out : List Effect) × (send_users sid now conn p
          ≡ ok (record p { user_listeners = listeners; out = out }))
  unfolding send_users
  send_users-ok sid now conn p k here = elim (Bool-cases conn.users_lattice) [
    | inr no' ↦ rw (no', send_users) (p.user_listeners, p.out, refl)
    | inl yes' ↦ elim (Option-cases (h.get p.active sid)) [
      | inl e ↦ absurd (ground (arith, here, e))
      | inr (sess, e) ↦
          let l = insert_list_key1 p.user_listeners sess.users_lattice.peers sid in
          let (rooms, f) =
            get_user_statuses-ok (record p { user_listeners = l }) now sess.users_lattice.peers
              (k.active sid sess e).1 in
          rw (yes', send_users, e, f) (l, _, refl)
    ]
  ]
