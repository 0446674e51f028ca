-- ===== src/Pool/Sync/Promoting.antt =====
-- `promote_topics`, the loop of `associate` over topics, and the topic table.
use swindon.Prelude.{
  ◌≡◌, refl, ◌==◌, true, ◌&&◌, List, [], ◌∷◌, some, arith, if◌then◌else◌, string_eq, nat_eq,
  unwrap_or, is_some, Option-cases, inl, inr,
}
use swindon.World.{World}
use swindon.Timers.{Timers}
use swindon.Outcome.{Outcome, ok}
use swindon.Std.HashMap.{HashMap, get, insert, get-insert, IsDistinct, insert-IsDistinct}
use swindon.Std.HashSet.{contains}
use swindon.Pool.Types.{Cid, Topic, Subscription, session, Session, Pool}
use swindon.Pool.Connections.{promote_topic, promote_topics}
use swindon.Pool.Sync.Tables.{subs_of, subscription}

module _ ⦃w : World⦄ ⦃h : Timers Session⦄ where
  abbrev pub Promotes : Pool → Cid → List Topic → Outcome Pool → Type 0
  Promotes p cid tops m =
      (table : HashMap Topic (HashMap Cid Subscription)) × (m ≡ ok (record p { topics = table }))
      × ((t : Topic) (c : Cid)
          → get (unwrap_or (get table t) []) c
            ≡ (if (cid == c) && contains tops t then some session else subscription p t c))
      × (((t : Topic) → IsDistinct (subs_of p t))
          → (t : Topic) → IsDistinct (unwrap_or (get table t) []))

  promote_topic-Promotes :
      (cid : Cid) (top : Topic) (p : Pool)
      → is_some (subscription p top cid) ≡ true
      → Promotes p cid (top ∷ []) (promote_topic cid top p)
  unfolding promote_topic contains
  promote_topic-Promotes cid top p k = elim (Option-cases (get p.topics top)) [
    | inl e ↦ absurd (unfold get in ground (arith, e, k))
    | inr (subs, e) ↦ elim (Option-cases (get subs cid)) [
      | inl f ↦ absurd (ground (arith, e, f, k))
      | inr (sub, f) ↦
          let subs' = insert subs cid session in
          rw (e, promote_topic, f)
            (
              insert p.topics top subs',
              refl,
              λ t c. ground (
                arith,
                e,
                get-insert p.topics top t subs',
                get-insert subs cid c session,
                string_eq.beq_iff top t,
              ),
              λ d t.
                  let ds : IsDistinct subs = rw e at (d top) in
                  ground (
                    arith,
                    d t,
                    get-insert p.topics top t subs',
                    insert-IsDistinct subs cid session ds,
                  ),
            )
    ]
  ]

  pub promote_topics-Promotes :
      (cid : Cid) (tops : List Topic) (p : Pool)
      → ((t : Topic) → contains tops t ≡ true → is_some (subscription p t cid) ≡ true)
      → Promotes p cid tops (promote_topics cid tops p)
  unfolding promote_topics contains
  promote_topics-Promotes cid [] p k = (p.topics, refl, λ t c. ground arith, λ d. d)
  promote_topics-Promotes cid (top ∷ tops) p k =
      let (one, e, at_one, d_one) =
        promote_topic-Promotes cid top p (k top (ground (arith, string_eq.beq_iff top top))) in
      let (all, f, at_all, d_all) =
        promote_topics-Promotes cid tops (record p { topics = one })
          (λ t c. ground (arith, at_one t cid, k t, c)) in
      rw e (all, f, λ t c. ground (arith, at_one t c, at_all t c), λ d. d_all (d_one d))
