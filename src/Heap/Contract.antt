-- ===== src/Heap/Contract.antt =====
-- `push`, `peek`, `pop` and `remove` of `Heap`, on the map from slots to values that a heap is.
use swindon.Prelude.{
  ℕ, zero, suc, ◌<◌, ◌≡◌, refl, ◌∙◌, true, false, [], ◌∷◌, ◌++◌, none, some, arith, length,
  if◌then◌else◌, is_some, Option-cases, inl, inr, ◌==◌, nat_eq,
}
use swindon.Outcome.{ok, Returns, Returns->>=}
use swindon.Heap.Slab.{Slabs}
use swindon.Heap.Items.{nth, is_some-nth, nth-push}
use swindon.Heap.Order.{Ord}
use swindon.Heap.Queue.{Heap, parent, new, push, peek, percolate_up}
use swindon.Heap.Places.{IsConsistent, at, key}
use swindon.Heap.Sifting.{le, le_trans, IsOrdered, Sifted, UpInv, percolate_up-Sifted}

module _ ⦃l : Slabs⦄ {T : Type 0} ⦃o : Ord T⦄ where
  pub record IsHeap (h : Heap T) : Type 0 where
    pub consistent : IsConsistent h
    pub ordered : IsOrdered h

  pub new-IsHeap : IsHeap (new {T = T})
  unfolding new
  new-IsHeap = record {
    consistent = λ i s. ground (arith, l.get-new {A = ℕ} s);
    ordered = λ c p. refl;
  }

  -- A value has a new slot, and the others keep theirs.
  pub record Pushed (t : T) (h : Heap T) (r : Heap T × ℕ) : Type 0 where
    pub heap : IsHeap r.0
    pub fresh : at h r.1 ≡ none
    pub values : (s : ℕ) → at r.0 s ≡ (if r.1 == s then some t else at h s)

  -- `push` onto a heap returns without a panic, so its loop ends within its rounds; what it returns is
  -- a heap in which a slot that was free has the value and the others are as they were.
  pub push-Pushed : (t : T) (h : Heap T) → IsHeap h → Returns (Pushed t h) (push t h)
  unfolding push
  push-Pushed t h g =
      let n = length h.items in
      let slot = l.vacant h.index in
      let h₁ : Heap T = record { items = h.items ++ (t, slot) ∷ []; index = l.insert h.index n } in
      let item = nth-push h.items (t, slot) in
      let vacant = l.get-vacant h.index in
      let c₁ : IsConsistent h₁ = λ i s. ground (
        arith,
        item i,
        l.get-insert h.index n s,
        g.consistent i s,
        g.consistent i slot,
        vacant,
        is_some-nth h.items i,
      ) in
      let values₁ : (s : ℕ) → at h₁ s ≡ (if slot == s then some t else at h s) = λ s.
        elim (Option-cases (l.get h.index s)) [
          | inl e ↦ ground (arith, e, l.get-insert h.index n s, item n)
          | inr (j, e) ↦ ground (
            arith,
            e,
            l.get-insert h.index n s,
            item n,
            item j,
            g.consistent j s,
            is_some-nth h.items j,
          )
        ] in
      let v₁ : UpInv h₁ n = record {
        inside = ground (arith, item n);
        edges = λ c p q.
            ground (arith, item c, item (parent c), g.ordered c p, is_some-nth h.items c, p, q);
        bridged = λ c p q r. ground (arith, item c, is_some-nth h.items c, p, q, r);
      } in
      Returns->>= (Sifted h₁) (Pushed t h) (percolate_up n h₁) (λ h'. ok (h', slot))
        (percolate_up-Sifted n h₁ c₁ v₁)
        (λ h' s. record {
          heap = record { consistent = s.consistent; ordered = s.ordered };
          fresh = ground (arith, vacant);
          values = λ x. s.values x ∙ values₁ x;
        })

  root_below :
      (fuel i : ℕ) (h : Heap T)
      → IsHeap h
      → i < fuel
      → is_some (nth h.items i) ≡ true
      → le (key h 0) (key h i) ≡ true
  root_below zero i h g f p = absurd (omega (arith, f))
  root_below (suc fuel) zero h g f p = elim (Option-cases (nth h.items 0)) [
    | inl e ↦ absurd (ground (arith, p, e))
    | inr (x, e) ↦ ground (arith, e, o.lt_asym x.0 x.0)
  ]
  root_below (suc fuel) (suc j) h g f p =
      let up = parent (suc j) in
      let q : is_some (nth h.items up) ≡ true =
        ground (arith, p, is_some-nth h.items (suc j), is_some-nth h.items up) in
      le_trans (key h 0) (key h up) (key h (suc j)) (ground (arith, q))
        (root_below fuel up h g (omega (arith, f)) q) (g.ordered (suc j) (omega arith))

  -- What `peek` shows belongs to a slot, and no slot has a lower value.
  pub record Least (h : Heap T) (t : T) : Type 0 where
    pub slot : ℕ
    pub here : at h slot ≡ some t
    pub least : (s : ℕ) (u : T) → at h s ≡ some u → o.lt u t ≡ false

  -- What `peek` shows of a heap belongs to one of its slots, and no slot holds a lower value.
  pub peek-Least : (h : Heap T) (t : T) → IsHeap h → peek h ≡ some t → Least h t
  unfolding peek
  peek-Least h t g e = elim (Option-cases (nth h.items 0)) [
    | inl f ↦ absurd (ground (arith, e, f))
    | inr (x, f) ↦ record {
      slot = x.1;
      here = ground (arith, e, f, g.consistent 0 x.1);
      least = λ s u p. elim (Option-cases (l.get h.index s)) [
        | inl q ↦ absurd (ground (arith, p, q))
        | inr (i, q) ↦ ground (arith, e, f, p, q, root_below (suc i) i h g (omega arith))
      ];
    }
  ]

  pub peek-none : (h : Heap T) (s : ℕ) → IsHeap h → peek h ≡ none → at h s ≡ none
  unfolding peek
  peek-none h s g e = elim (Option-cases (l.get h.index s)) [
    | inl q ↦ ground (arith, q)
    | inr (i, q) ↦
        ground (arith, e, q, g.consistent i s, is_some-nth h.items i, is_some-nth h.items 0)
  ]
