-- ===== src/Heap/Removal.antt =====
-- `remove` and `pop` of `Heap`.
use swindon.Prelude.{
  ℕ, ◌-◌, ◌≡◌, refl, ap, ◌∙◌, none, some, arith, length, ltb, Option-cases, Bool-cases, inl, inr,
  nat_eq,
}
use swindon.Outcome.{ok, Returns, Returns->>=, Returns-imp}
use swindon.Heap.Slab.{Slabs, take, assign}
use swindon.Heap.Items.{nth, is_some-nth}
use swindon.Heap.Order.{Ord}
use swindon.Heap.Queue.{Heap, peek, pop, remove, settle, swap_remove, percolate_up, percolate_down}
use swindon.Heap.Places.{at}
use swindon.Heap.Sifting.{Sifted, percolate_up-Sifted}
use swindon.Heap.Sinking.{percolate_down-Sifted}
use swindon.Heap.Contract.{IsHeap}
use swindon.Heap.Cutting.{
  Removed, Cut, Refilled, cut, cut_end, refilled, refilled-Refilled, refilled-UpInv,
  refilled-DownInv, nth-swap_remove,
}

module _ ⦃l : Slabs⦄ {T : Type 0} ⦃o : Ord T⦄ where
  Sifted-Removed :
      (slot idx : ℕ) (last : T × ℕ) (h h' k : Heap T)
      → Refilled slot idx last h h'
      → Sifted h' k
      → Removed slot h k
  Sifted-Removed slot idx last h h' k r s = record {
    heap = record { consistent = s.consistent; ordered = s.ordered };
    values = λ x. s.values x ∙ r.values x;
  }

  settle-Removed :
      (slot idx : ℕ) (item last : T × ℕ) (h : Heap T)
      → Cut slot idx item last h
      → Returns (Removed slot h) (settle idx item.0 (cut slot idx last h))
  unfolding settle assign
  settle-Removed slot idx item last h c =
      let at_i = nth-swap_remove h.items idx last in
      elim (Bool-cases (ltb idx (length h.items - 1))) [
        | inr b ↦
            let gone : nth (swap_remove h.items idx last) idx ≡ none =
              ground (arith, at_i idx, b) in
            rw (gone, settle)
              (cut_end slot idx item last h c (ground (arith, b, c.there, is_some-nth h.items idx)))
        | inl b ↦
            let moved : nth (swap_remove h.items idx last) idx ≡ some last =
              ground (arith, at_i idx, b) in
            let known : l.get (l.remove h.index slot) last.1 ≡ some (length h.items - 1) = ground (
              arith,
              b,
              c.end,
              c.found,
              l.get-remove h.index slot last.1,
              c.heap.consistent (length h.items - 1) last.1,
            ) in
            let k = refilled slot idx last h in
            let r = refilled-Refilled slot idx item last h c (ground (arith, b)) in
            elim (Bool-cases (o.lt last.0 item.0)) [
              | inl d ↦
                  rw (moved, settle, known, d)
                    (Returns-imp (Sifted k) (Removed slot h) (percolate_up idx k)
                      (λ k'. Sifted-Removed slot idx last h k k' r)
                      (percolate_up-Sifted idx k r.consistent
                        (refilled-UpInv slot idx item last h c (ground (arith, b)) d)))
              | inr d ↦
                  rw (moved, settle, known, d)
                    (Returns-imp (Sifted k) (Removed slot h) (percolate_down idx k)
                      (λ k'. Sifted-Removed slot idx last h k k' r)
                      (percolate_down-Sifted idx k r.consistent
                        (refilled-DownInv slot idx item last h c (ground (arith, b)) d)))
            ]
      ]

  -- `remove` of a slot that holds a value, of a heap, returns without a panic that value and a heap in
  -- which that slot is gone and the others are as they were.
  pub remove-Removed :
      (slot : ℕ) (t : T) (h : Heap T)
      → IsHeap h
      → at h slot ≡ some t
      → Returns (λ r. (r.0 ≡ t) × Removed slot h r.1) (remove slot h)
  unfolding remove take
  remove-Removed slot t h g e = elim (Option-cases (l.get h.index slot)) [
    | inl f ↦ absurd (ground (arith, e, f))
    | inr (idx, f) ↦ elim (Option-cases (nth h.items idx)) [
      | inl p ↦ absurd (ground (arith, e, f, p))
      | inr (item, p) ↦ elim (Option-cases (nth h.items (length h.items - 1))) [
        | inl q ↦ absurd (
            ground (arith, p, q, is_some-nth h.items idx, is_some-nth h.items (length h.items - 1)))
        | inr (last, q) ↦
            rw (f, p, q)
              (Returns->>= (Removed slot h) (λ r. (r.0 ≡ t) × Removed slot h r.1)
                (settle idx item.0 (cut slot idx last h)) (λ h'. ok (item.0, h'))
                (settle-Removed slot idx item last h
                  (record { heap = g; found = f; there = p; end = q }))
                (λ h' r. (ground (arith, e, f, p), r)))
      ]
    ]
  ]

  -- `pop` takes what `peek` shows.
  pub pop-Removed :
      (t : T) (h : Heap T)
      → IsHeap h
      → peek h ≡ some t
      → Returns
          (λ r. (r.0 ≡ some t) × (slot : ℕ) × (at h slot ≡ some t) × Removed slot h r.1)
          (pop h)
  unfolding pop peek
  pop-Removed t h g e = elim (Option-cases (nth h.items 0)) [
    | inl f ↦ absurd (ground (arith, e, f))
    | inr (first, f) ↦
        let here : at h first.1 ≡ some t = ground (arith, e, f, g.consistent 0 first.1) in
        rw (f, pop)
          (Returns->>= (λ r. (r.0 ≡ t) × Removed first.1 h r.1)
            (λ r. (r.0 ≡ some t) × (slot : ℕ) × (at h slot ≡ some t) × Removed slot h r.1)
            (remove first.1 h) (λ r. ok (some r.0, r.1)) (remove-Removed first.1 t h g here)
            (λ r p. (ap some p.0, first.1, here, p.1)))
  ]

  pub pop-none : (h : Heap T) → peek h ≡ none → pop h ≡ ok (none, h)
  unfolding pop peek
  pop-none h e = elim (Option-cases (nth h.items 0)) [
    | inl f ↦ rw (f, pop) refl
    | inr (first, f) ↦ absurd (ground (arith, e, f))
  ]
