-- ===== src/Lattice/Merge.antt =====
-- `crdt_update` for any lawful CRDT: what the map holds afterwards, and what is left of the delta.
use swindon.Prelude.{
  ◌≡◌, refl, Eq, Bool, false, not, ◌||◌, List, [], ◌∷◌, Option, none, some, arith, if◌then◌else◌,
}
use swindon.Std.HashMap.{
  HashMap, get, insert, remove, remove_all, get-insert, get-remove, IsDistinct,
  remove_all-IsDistinct,
}
use swindon.Std.HashSet.{contains}
use swindon.Lattice.Crdt.{Crdt, IsLawful, crdt_entry, crdt_loop, crdt_update}

module _ {K V : Type 0} ⦃e : Eq K⦄ where
  pub get-remove_all :
      (m : HashMap K V) (ks : List K) (k : K)
      → get (remove_all m ks) k ≡ (if contains ks k then none else get m k)
  unfolding remove_all contains
  get-remove_all m [] k = refl
  get-remove_all m (j ∷ ks) k = ground (arith, get-remove_all (remove m j) ks k, get-remove m j k)

module _ {V : Type 0} ⦃c : Crdt V⦄ where
  -- The value of one key after a merge: the only one there is, or the update of the one by the other.
  abbrev pub merged : Option V → Option V → Option V
  merged mine none = mine
  merged none (some other) = some other
  merged (some mine) (some other) = some (c.update mine other).0

  -- The value of one key in the delta that is left: what was news, as an unknown key always is.
  abbrev pub news : Option V → Option V → Option V
  news mine none = none
  news none (some other) = some other
  news (some mine) (some other) = if (c.update mine other).1 then some other else none

  -- Whether the loop marks a key for deletion.
  abbrev stale : Option V → Option V → Bool
  stale mine none = false
  stale none (some other) = false
  stale (some mine) (some other) = not (c.update mine other).1

module _ {K V : Type 0} ⦃e : Eq K⦄ ⦃c : Crdt V⦄ where
  get-crdt_loop :
      (es : HashMap K V) (o : HashMap K V) (del : List K) (k : K)
      → IsDistinct es
      → get (crdt_loop o del es).0 k ≡ merged (get o k) (get es k)
  unfolding crdt_loop crdt_entry get
  get-crdt_loop [] o del k d = refl
  get-crdt_loop ((j, v) ∷ es) o del k d =
      let (x, changed) = crdt_entry (get o j) v in
      ground (
        arith,
        get-crdt_loop es (insert o j x) (if changed then del else j ∷ del) k d.1,
        get-insert o j k x,
        e.beq_iff j k,
      )

  contains-crdt_loop :
      (es : HashMap K V) (o : HashMap K V) (del : List K) (k : K)
      → IsDistinct es
      → contains (crdt_loop o del es).1 k ≡ (contains del k || stale (get o k) (get es k))
  unfolding crdt_loop crdt_entry get contains
  contains-crdt_loop [] o del k d = ground arith
  contains-crdt_loop ((j, v) ∷ es) o del k d =
      let (x, changed) = crdt_entry (get o j) v in
      ground (
        arith,
        contains-crdt_loop es (insert o j x) (if changed then del else j ∷ del) k d.1,
        get-insert o j k x,
        e.beq_iff j k,
      )

  -- After `crdt_update`, each key of the map holds the merge of what it held and what the delta
  -- held, and the delta that is left holds the entries that were news and no others. The delta
  -- holds each key once.
  pub crdt_update_lem :
      (original delta : HashMap K V) (k : K)
      → IsDistinct delta
      → let (updated, left) = crdt_update original delta in
        (get updated k ≡ merged (get original k) (get delta k))
        × (get left k ≡ news (get original k) (get delta k))
  unfolding crdt_update contains
  crdt_update_lem original delta k d = (
    get-crdt_loop delta original [] k d,
    ground (
      arith,
      get-remove_all delta (crdt_loop original [] delta).1 k,
      contains-crdt_loop delta original [] k d,
    ),
  )

  crdt_update-IsDistinct :
      (original delta : HashMap K V) → IsDistinct delta → IsDistinct (crdt_update original delta).1
  unfolding crdt_update
  crdt_update-IsDistinct original delta d =
      remove_all-IsDistinct delta (crdt_loop original [] delta).1 d

module _ {V : Type 0} ⦃c : Crdt V⦄ (lawful : IsLawful c) where
  merged-news : (mine other : Option V) → merged mine (news mine other) ≡ merged mine other
  unfolding crdt_entry
  merged-news mine none = refl
  merged-news none (some other) = refl
  merged-news (some mine) (some other) = ground (arith, lawful.unchanged mine other)

  merged_again : (mine other : Option V) → merged (merged mine other) other ≡ merged mine other
  unfolding crdt_entry
  merged_again mine none = refl
  merged_again none (some other) =
      ground (arith, lawful.reflexive other, lawful.unchanged other other)
  merged_again (some mine) (some other) =
      ground (arith, lawful.settled mine other, lawful.unchanged (c.update mine other).0 other)

  news-merged : (mine other : Option V) → news (merged mine other) other ≡ none
  unfolding crdt_entry
  news-merged mine none = refl
  news-merged none (some other) = ground (arith, lawful.reflexive other)
  news-merged (some mine) (some other) = ground (arith, lawful.settled mine other)

module _ {K V : Type 0} ⦃e : Eq K⦄ ⦃c : Crdt V⦄ (lawful : IsLawful c) where
  -- The delta that is left does to the map what the whole delta does: nothing is lost by
  -- forwarding only the news. The delta holds each key once.
  pub crdt_update_minimal :
      (original delta : HashMap K V) (k : K)
      → IsDistinct delta
      → let (updated, left) = crdt_update original delta in
        get (crdt_update original left).0 k ≡ get updated k
  crdt_update_minimal original delta k d =
      let left = (crdt_update original delta).1 in
      rw ((crdt_update_lem original left k (crdt_update-IsDistinct original delta d)).0) (
        rw ((crdt_update_lem original delta k d).1, (crdt_update_lem original delta k d).0)
          (merged-news lawful (get original k) (get delta k)))

  -- A delta that arrives again changes no key of the map, and nothing of it is left to forward.
  -- The delta holds each key once.
  pub crdt_update_again :
      (original delta : HashMap K V) (k : K)
      → IsDistinct delta
      → let (updated, left) = crdt_update original delta in
        let (twice, echo) = crdt_update updated delta in
        (get twice k ≡ get updated k) × (get echo k ≡ none)
  crdt_update_again original delta k d =
      let updated = (crdt_update original delta).0 in
      let (first, _) = crdt_update_lem original delta k d in
      let (second, echo) = crdt_update_lem updated delta k d in
      (
        rw (second, first) (merged_again lawful (get original k) (get delta k)),
        rw (echo, first) (news-merged lawful (get original k) (get delta k)),
      )
