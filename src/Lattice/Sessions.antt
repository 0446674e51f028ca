-- ===== src/Lattice/Sessions.antt =====
-- `Lattice::remove_session`: what goes with a session and what stays.
use swindon.Prelude.{
  ◌≡◌, ◌≢◌, refl, ◌==◌, Bool, true, false, ◌&&◌, String, List, [], ◌∷◌, none, arith, if◌then◌else◌,
  string_eq, unwrap_or, Option-cases, inl, inr, beq_refl,
}
use swindon.World.{World}
use swindon.Std.HashMap
use swindon.Std.HashMap.{HashMap, get, insert, remove, get-insert, get-remove}
use swindon.Std.HashSet
use swindon.Std.HashSet.{HashSet, contains, contains-remove}
use swindon.Lattice.State.{
  Lattice, Key, SessionId, drop_subscription, drop_subscriptions, remove_session,
}

none-nil : (s : HashSet String) → ((j : String) → contains s j ≡ false) → s ≡ []
unfolding contains
none-nil [] h = refl
none-nil (x ∷ s) h = ground (arith, h x, beq_refl x)

module _ ⦃w : World⦄ where
  -- Whether a session is subscribed to a key.
  abbrev pub subscribed : Lattice → Key → SessionId → Bool
  subscribed lat key j = contains (unwrap_or (get lat.subscriptions key) []) j

  -- Whether a session has private values under a key.
  abbrev pub has_private : Lattice → SessionId → Key → Bool
  has_private lat sid key = contains (HashMap.keys (unwrap_or (get lat.private sid) [])) key

  subscribed-drop_subscription :
      (sid j : SessionId) (lat : Lattice) (k key : Key)
      → subscribed (drop_subscription sid lat k) key j
        ≡ (if (k == key) && (sid == j) then false else subscribed lat key j)
  unfolding drop_subscription contains
  subscribed-drop_subscription sid j lat k key = elim (Option-cases (get lat.subscriptions k)) [
    | inl e ↦ ground (arith, e, string_eq.beq_iff k key)
    | inr (s, e) ↦
        let left = HashSet.remove s sid in
        ground (
          arith,
          e,
          string_eq.beq_iff k key,
          contains-remove s sid j,
          get-insert lat.subscriptions k key left,
          get-remove lat.subscriptions k key,
        )
  ]

  subscribed-drop_subscriptions :
      (sid j : SessionId) (lat : Lattice) (ks : List Key) (key : Key)
      → subscribed (drop_subscriptions sid lat ks) key j
        ≡ (if contains ks key && (sid == j) then false else subscribed lat key j)
  unfolding drop_subscriptions contains
  subscribed-drop_subscriptions sid j lat [] key = refl
  subscribed-drop_subscriptions sid j lat (k ∷ ks) key = ground (
    arith,
    subscribed-drop_subscriptions sid j (drop_subscription sid lat k) ks key,
    subscribed-drop_subscription sid j lat k key,
  )

  private-drop_subscriptions :
      (sid : SessionId) (lat : Lattice) (ks : List Key)
      → (drop_subscriptions sid lat ks).private ≡ lat.private
  unfolding drop_subscriptions drop_subscription
  private-drop_subscriptions sid lat [] = refl
  private-drop_subscriptions sid lat (k ∷ ks) =
      ground (arith, private-drop_subscriptions sid (drop_subscription sid lat k) ks)

  -- `remove_session` takes the session's private values and its subscriptions to the keys of
  -- these, and no other private value or subscription.
  pub remove_session_lem :
      (lat : Lattice) (sid j : SessionId) (key : Key)
      → let left = remove_session lat sid in
        (get left.private j ≡ (if sid == j then none else get lat.private j))
        × (subscribed left key j
            ≡ (if has_private lat sid key && (sid == j) then false else subscribed lat key j))
  unfolding remove_session contains
  remove_session_lem lat sid j key = elim (Option-cases (get lat.private sid)) [
    | inl e ↦ ground (arith, e, string_eq.beq_iff sid j)
    | inr (skeys, e) ↦
        let rest : Lattice = record lat { private = remove lat.private sid } in
        ground (
          arith,
          e,
          private-drop_subscriptions sid rest (HashMap.keys skeys),
          subscribed-drop_subscriptions sid j rest (HashMap.keys skeys) key,
          get-remove lat.private sid j,
        )
  ]

  shared-drop_subscription :
      (sid j : SessionId) (lat : Lattice) (k key : Key)
      → subscribed lat key j ≡ true
      → sid ≢ j
      → get (drop_subscription sid lat k).shared key ≡ get lat.shared key
  unfolding drop_subscription contains
  shared-drop_subscription sid j lat k key h n = elim (Option-cases (get lat.subscriptions k)) [
    | inl e ↦ ground (arith, e)
    | inr (s, e) ↦ ground (
      arith,
      e,
      h,
      string_eq.beq_iff k key,
      string_eq.beq_iff sid j,
      contains-remove s sid j,
      get-remove lat.shared k key,
    )
  ]

  shared-drop_subscriptions :
      (sid j : SessionId) (lat : Lattice) (ks : List Key) (key : Key)
      → subscribed lat key j ≡ true
      → sid ≢ j
      → get (drop_subscriptions sid lat ks).shared key ≡ get lat.shared key
  unfolding drop_subscriptions
  shared-drop_subscriptions sid j lat [] key h n = refl
  shared-drop_subscriptions sid j lat (k ∷ ks) key h n = ground (
    arith,
    shared-drop_subscriptions sid j (drop_subscription sid lat k) ks key,
    shared-drop_subscription sid j lat k key h n,
    subscribed-drop_subscription sid j lat k key,
    string_eq.beq_iff sid j,
  )

  -- A shared room that another session is subscribed to keeps its values when a session is removed.
  pub shared-remove_session :
      (lat : Lattice) (sid j : SessionId) (key : Key)
      → subscribed lat key j ≡ true
      → sid ≢ j
      → get (remove_session lat sid).shared key ≡ get lat.shared key
  unfolding remove_session
  shared-remove_session lat sid j key h n = elim (Option-cases (get lat.private sid)) [
    | inl e ↦ ground (arith, e)
    | inr (skeys, e) ↦
        let rest : Lattice = record lat { private = remove lat.private sid } in
        ground (arith, e, shared-drop_subscriptions sid j rest (HashMap.keys skeys) key h n)
  ]
