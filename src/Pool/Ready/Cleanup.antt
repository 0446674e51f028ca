-- ===== src/Pool/Ready/Cleanup.antt =====
-- `cleanup`, `clean_sessions` and `lattice_cleanup` of chat/processor/pool.rs, and the sessions that are due.
use swindon.Prelude.{
  ℕ, zero, suc, ◌+◌, ◌≤◌, ◌≡◌, refl, Bool, true, false, Option, none, some, arith, if◌then◌else◌,
  string_eq, nat_eq, Option-cases, Bool-cases, inl, inr, ltb,
}
use swindon.World.{World}
use swindon.Timers.{Timers}
use swindon.Outcome.{Outcome-cases, ok, Returns, Returns-imp, Returns-×, Returns->>=}
use swindon.Std.HashMap.{get}
use swindon.Std.HashSet
use swindon.Lattice.State.{SessionId}
use swindon.Pool.Types.{Session, Pool}
use swindon.Pool.Activity.{
  expire_session, clean_loop, clean_sessions, lattice_cleanup, cleanup, next_deadline,
  clean_lattices, lattice_cleanup_interval,
}
use swindon.Pool.Ready.Topics.{HasKeys-fields}
use swindon.Pool.Sync.Associating.{IsReady}
use swindon.Pool.Ready.Sessions.{InSync-fields, put_sessions-IsReady}
use swindon.Pool.Ready.Expiring.{Expired, expire_session-Expired, expire_session-IsReady}

module _ ⦃w : World⦄ ⦃h : Timers Session⦄ where
  abbrev is_due : Option ℕ → ℕ → Bool
  is_due none timestamp = false
  is_due (some x) timestamp = ltb x timestamp

  -- Of the active sessions those that are due are gone, and of these the ones with connections are
  -- inactive sessions, whose status dates from now.
  pub record Cleaned (timestamp now : ℕ) (p q : Pool) : Type 0 where
    pub ready : IsReady q
    pub active :
        (j : SessionId)
        → h.get q.active j
          ≡ (if is_due (h.deadline p.active j) timestamp then none else h.get p.active j)
    pub deadlines :
        (j : SessionId)
        → h.deadline q.active j
          ≡ (if is_due (h.deadline p.active j) timestamp then none else h.deadline p.active j)
    pub inactive :
        (j : SessionId) (s : Session)
        → h.get p.active j ≡ some s
        → is_due (h.deadline p.active j) timestamp ≡ true
        → HashSet.is_empty s.connections ≡ false
        → get q.inactive j ≡ some (record s { status_timestamp = now })
    pub others :
        (j : SessionId)
        → is_due (h.deadline p.active j) timestamp ≡ false
        → get q.inactive j ≡ get p.inactive j

  none_due :
      (timestamp now : ℕ) (p : Pool)
      → ((j : SessionId) → is_due (h.deadline p.active j) timestamp ≡ false)
      → IsReady p
      → Cleaned timestamp now p p
  none_due timestamp now p d r = record {
    ready = r;
    active = λ j. ground (arith, d j);
    deadlines = λ j. ground (arith, d j);
    inactive = λ j s e f. ground (arith, d j, f);
    others = λ j e. refl;
  }

  pop-IsReady :
      (p : Pool) (sid : SessionId) (x : ℕ) (sess : Session)
      → h.peek p.active ≡ some (sid, x, sess)
      → IsReady p
      → IsReady (record p { active = (h.pop p.active).1 })
  pop-IsReady p sid x sess e r =
      put_sessions-IsReady p (h.pop p.active).1 p.inactive
        (λ j s q. ground (arith, h.get-pop p.active sid j x sess e, r.keys.active j s, q))
        r.keys.inactive r

  clean_step :
      (timestamp now : ℕ) (p p' q : Pool) (sid : SessionId) (x : ℕ) (sess : Session)
      → h.peek p.active ≡ some (sid, x, sess)
      → ltb x timestamp ≡ true
      → Expired sid sess now (record p { active = (h.pop p.active).1 }) p'
      → Cleaned timestamp now p' q
      → Cleaned timestamp now p q
  clean_step timestamp now p p' q sid x sess e lt (f, g) c =
      let (here, at) = h.peek_entry p.active sid x sess e in
      record {
        ready = c.ready;
        active = λ j. ground (
          arith,
          c.active j,
          f,
          h.get-pop p.active sid j x sess e,
          h.deadline-pop p.active sid j x sess e,
          string_eq.beq_iff sid j,
          at,
          lt,
        );
        deadlines = λ j. ground (
          arith,
          c.deadlines j,
          f,
          h.deadline-pop p.active sid j x sess e,
          string_eq.beq_iff sid j,
          at,
          lt,
        );
        inactive = λ j s a b d. ground (
          arith,
          c.inactive j s,
          c.others j,
          f,
          g j,
          h.get-pop p.active sid j x sess e,
          h.deadline-pop p.active sid j x sess e,
          string_eq.beq_iff sid j,
          here,
          a,
          b,
          d,
        );
        others = λ j b. ground (
          arith,
          c.others j,
          f,
          g j,
          h.deadline-pop p.active sid j x sess e,
          string_eq.beq_iff sid j,
          at,
          lt,
          b,
        );
      }

  clean_loop-Cleaned :
      (fuel timestamp now : ℕ) (p : Pool)
      → h.len p.active ≤ fuel
      → IsReady p
      → Returns (Cleaned timestamp now p) (clean_loop true fuel timestamp now p)
  unfolding clean_loop
  clean_loop-Cleaned zero timestamp now p l r =
      none_due timestamp now p
        (λ j. elim (Option-cases (h.peek p.active)) [
          | inl e ↦ ground (arith, h.peek_none p.active j e, h.get-deadline p.active j)
          | inr ((sid, x, sess), e) ↦ ground (arith, h.len-pop p.active sid x sess e, l)
        ])
        r
  clean_loop-Cleaned (suc fuel) timestamp now p l r = elim (Option-cases (h.peek p.active)) [
    | inl e ↦
        rw (e, clean_loop)
          (none_due timestamp now p
            (λ j. ground (arith, h.peek_none p.active j e, h.get-deadline p.active j)) r)
    | inr ((sid, x, sess), e) ↦ elim (Bool-cases (ltb x timestamp)) [
      | inr b ↦
          rw (e, b, clean_loop)
            (none_due timestamp now p
              (λ j. elim (Option-cases (h.deadline p.active j)) [
                | inl n ↦ ground (arith, n)
                | inr (d, n) ↦ ground (arith, n, b, h.peek_least p.active sid j x d sess e n)
              ])
              r)
      | inl b ↦
          let p₁ : Pool = record p { active = (h.pop p.active).1 } in
          let (here, at) = h.peek_entry p.active sid x sess e in
          let (key, ks) = r.keys.active sid sess here in
          let r₁ = pop-IsReady p sid x sess e r in
          rw (e, b, clean_loop)
            (Returns->>= (λ p'. Expired sid sess now p₁ p' × IsReady p') (Cleaned timestamp now p)
              (expire_session true sid sess now p₁) (clean_loop true fuel timestamp now)
              (Returns-× (Expired sid sess now p₁) IsReady (expire_session true sid sess now p₁)
                (expire_session-Expired sid sess now p₁ key)
                (expire_session-IsReady sid sess now p₁ key ks r₁))
              (λ p' (x', r').
                Returns-imp (Cleaned timestamp now p') (Cleaned timestamp now p)
                  (clean_loop true fuel timestamp now p')
                  (λ q. clean_step timestamp now p p' q sid x sess e b x')
                  (clean_loop-Cleaned fuel timestamp now p'
                    (ground (arith, h.len-pop p.active sid x sess e, l, x'.0)) r')))
    ]
  ]

  clean_sessions-Cleaned :
      (timestamp now : ℕ) (p : Pool)
      → IsReady p
      → Returns (λ r. Cleaned timestamp now p r.1) (clean_sessions true timestamp now p)
  unfolding clean_sessions
  clean_sessions-Cleaned timestamp now p r =
      Returns->>= (Cleaned timestamp now p) (λ r'. Cleaned timestamp now p r'.1)
        (clean_loop true (h.len p.active) timestamp now p) (λ p'. ok (next_deadline p', p'))
        (clean_loop-Cleaned (h.len p.active) timestamp now p (ground arith) r) (λ q c. c)

  lattice_cleanup-Cleaned :
      (timestamp now : ℕ) (p q : Pool)
      → Cleaned timestamp now p q
      → Cleaned timestamp now p (lattice_cleanup timestamp q).1
  unfolding lattice_cleanup
  lattice_cleanup-Cleaned timestamp now p q c =
      let q' : Pool = record q {
        lattices = clean_lattices q timestamp q.lattices;
        last_lattice_cleanup = timestamp;
      } in
      elim (Bool-cases (ltb timestamp (q.last_lattice_cleanup + lattice_cleanup_interval))) [
        | inl b ↦ rw b c
        | inr b ↦ rw b (record {
          ready = record {
            sync = InSync-fields q q' refl refl refl c.ready.sync;
            keys = HasKeys-fields q q' refl refl refl refl c.ready.keys;
          };
          active = c.active;
          deadlines = c.deadlines;
          inactive = c.inactive;
          others = c.others;
        })
      ]

  -- A receiver that is gone makes no difference but for the panics.
  clean_loop-open :
      (is_open : Bool) (fuel timestamp now : ℕ) (p q : Pool)
      → clean_loop is_open fuel timestamp now p ≡ ok q
      → clean_loop true fuel timestamp now p ≡ ok q
  unfolding clean_loop expire_session
  clean_loop-open true fuel timestamp now p q e = e
  clean_loop-open false zero timestamp now p q e = e
  clean_loop-open false (suc fuel) timestamp now p q e = elim (Option-cases (h.peek p.active)) [
    | inl f ↦ ground (arith, e, f)
    | inr ((sid, x, sess), f) ↦ elim (Bool-cases (ltb x timestamp)) [
      | inl b ↦ absurd (ground (arith, e, f, b))
      | inr b ↦ ground (arith, e, f, b)
    ]
  ]

  pub cleanup-open :
      (is_open : Bool) (timestamp now : ℕ) (p : Pool) (r : Option ℕ × Pool)
      → cleanup is_open timestamp now p ≡ ok r
      → cleanup true timestamp now p ≡ ok r
  unfolding cleanup clean_sessions
  cleanup-open is_open timestamp now p r e =
      elim (Outcome-cases (clean_loop is_open (h.len p.active) timestamp now p)) [
        | inl f ↦ absurd (ground (arith, e, f))
        | inr (q, f) ↦
            ground (arith, e, f, clean_loop-open is_open (h.len p.active) timestamp now p q f)
      ]

  -- While the receiver of the pool's messages is there, neither the sessions' nor the lattices'
  -- cleanup panics on a ready pool: afterwards the pool is ready and exactly the active sessions with a deadline before `timestamp` are no longer active.
  -- Those of them that still have connections are inactive sessions with the present as the time
  -- of their status; no other inactive session has changed.
  pub cleanup-Cleaned :
      (timestamp now : ℕ) (p : Pool)
      → IsReady p
      → Returns (λ r. Cleaned timestamp now p r.1) (cleanup true timestamp now p)
  unfolding cleanup
  cleanup-Cleaned timestamp now p r =
      Returns->>= (λ r'. Cleaned timestamp now p r'.1) (λ r'. Cleaned timestamp now p r'.1)
        (clean_sessions true timestamp now p) _ (clean_sessions-Cleaned timestamp now p r)
        (λ r' c. lattice_cleanup-Cleaned timestamp now p r'.1 c)
