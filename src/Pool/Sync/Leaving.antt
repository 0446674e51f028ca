-- ===== src/Pool/Sync/Leaving.antt =====
-- `del_connection` of chat/processor/pool.rs, and readiness.
use swindon.Prelude.{
  ℕ, ◌≡◌, refl, ◌==◌, true, ◌&&◌, ◌||◌, List, [], ◌∷◌, none, arith, if◌then◌else◌, string_eq,
  nat_eq, unwrap_or, is_some, Option-cases, inl, inr, ap, ◌∙◌,
}
use swindon.World.{World}
use swindon.Timers.{Timers}
use swindon.Outcome.{Returns}
use swindon.Std.HashMap.{HashMap, get, remove, get-remove, IsDistinct}
use swindon.Std.HashSet.{contains}
use swindon.Pool.Types.{Cid, Topic, Subscription, Effect, Session, Pool}
use swindon.Pool.Topics.{remove_subscription}
use swindon.Pool.Connections.{unsubscribe_all, del_connection}
use swindon.Pool.Keys.Exiting.{leave_session-Left}
use swindon.Pool.Sync.Tables.{subs_of, subscription, subscription-remove, subs_of-remove-IsDistinct}
use swindon.Pool.Sync.Associating.{IsReady}

module _ ⦃w : World⦄ ⦃h : Timers Session⦄ where
  -- The table loses a connection's entries for the listed topics, and nothing else but the output
  -- changes.
  abbrev Cleared : Pool → Cid → List Topic → Pool → Type 0
  Cleared p cid tops q =
      (table : HashMap Topic (HashMap Cid Subscription)) × (out : List Effect) × (q
        ≡ record p { topics = table; out = out })
      × ((t : Topic) (c : Cid)
          → get (unwrap_or (get table t) []) c
            ≡ (if (cid == c) && contains tops t then none else subscription p t c))
      × (((t : Topic) → IsDistinct (subs_of p t))
          → (t : Topic) → IsDistinct (unwrap_or (get table t) []))

  remove_subscription_only :
      (top : Topic) (cid : Cid) (p : Pool)
      → let q = (remove_subscription top cid p).1 in q ≡ record p { topics = q.topics; out = q.out }
  unfolding remove_subscription
  remove_subscription_only top cid p = ground arith

  unsubscribe_all-Cleared :
      (tops : List Topic) (cid : Cid) (p : Pool) → Cleared p cid tops (unsubscribe_all cid tops p)
  unfolding unsubscribe_all contains
  unsubscribe_all-Cleared [] cid p = (p.topics, p.out, refl, λ t c. ground arith, λ d. d)
  unsubscribe_all-Cleared (top ∷ tops) cid p =
      let q = (remove_subscription top cid p).1 in
      let (table, out, e, at, d) = unsubscribe_all-Cleared tops cid q in
      let only = remove_subscription_only top cid p in
      (
        table,
        out,
        e ∙ ap (λ (x : Pool). record x { topics = table; out = out }) only,
        λ t c. ground (arith, at t c, (subscription-remove top t cid c p).1),
        λ k. d (λ t. subs_of-remove-IsDistinct top t cid p k),
      )

  -- A connection that is pending or associated is removed without a panic, and the pool stays
  -- ready.
  pub del_connection-IsReady :
      (cid : Cid) (now : ℕ) (p : Pool)
      → is_some (get p.pending_connections cid) || is_some (get p.connections cid) ≡ true
      → IsReady p
      → Returns IsReady (del_connection cid now p)
  unfolding del_connection
  del_connection-IsReady cid now p known r = elim (Option-cases (get p.pending_connections cid)) [
    | inr (nc, e) ↦
        let p₀ : Pool = record p { pending_connections = remove p.pending_connections cid } in
        let (table, out, f, at, d) = unsubscribe_all-Cleared nc.topics cid p₀ in
        rw (e, del_connection, f)
          (record {
            sync = record {
              exact = λ t c. ground (
                arith,
                at t c,
                r.sync.exact t c,
                r.sync.apart c,
                e,
                get-remove p.pending_connections cid c,
              );
              apart = λ c. ground (arith, r.sync.apart c, get-remove p.pending_connections cid c);
              distinct = d r.sync.distinct;
            };
            keys = record {
              active = r.keys.active;
              inactive = r.keys.inactive;
              pending = λ c n g.
                  ground (arith, get-remove p.pending_connections cid c, r.keys.pending c n, g);
              joined = r.keys.joined;
            };
          })
    | inl n ↦ elim (Option-cases (get p.connections cid)) [
      | inl e ↦ absurd (ground (arith, known, n, e))
      | inr (conn, e) ↦
          let p₀ : Pool = record p { connections = remove p.connections cid } in
          let (table, out, f, at, d) = unsubscribe_all-Cleared conn.topics cid p₀ in
          let p₁ : Pool = record p₀ { topics = table; out = out } in
          let left = leave_session-Left cid conn now p₁ (r.keys.joined cid conn e) (record {
            active = r.keys.active;
            inactive = r.keys.inactive;
            pending = r.keys.pending;
            joined = λ c m g. ground (arith, get-remove p.connections cid c, r.keys.joined c m, g);
          }) in
          rw (n, del_connection, e, f, left.returns)
            (record {
              sync = record {
                exact = λ t c. ground (
                  arith,
                  at t c,
                  r.sync.exact t c,
                  r.sync.apart c,
                  e,
                  n,
                  get-remove p.connections cid c,
                );
                apart = λ c. ground (arith, r.sync.apart c, get-remove p.connections cid c);
                distinct = d r.sync.distinct;
              };
              keys = record {
                active = left.keys.active;
                inactive = left.keys.inactive;
                pending = left.keys.pending;
                joined = left.keys.joined;
              };
            })
    ]
  ]
