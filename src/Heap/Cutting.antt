-- ===== src/Heap/Cutting.antt =====
-- What `remove` of `Heap` has done before it sifts: the last item stands in for the removed one.
use swindon.Prelude.{
  ℕ, suc, ◌-◌, ◌<◌, ◌≡◌, true, false, List, none, some, arith, length, ltb, if◌then◌else◌,
  Option-cases, inl, inr, ◌==◌, nat_eq,
}
use swindon.Heap.Slab.{Slabs}
use swindon.Heap.Items.{nth, init, is_some-nth, nth-init, nth-store}
use swindon.Heap.Order.{Ord}
use swindon.Heap.Queue.{Heap, parent, swap_remove}
use swindon.Heap.Places.{IsConsistent, at, key}
use swindon.Heap.Sifting.{le_trans, UpInv}
use swindon.Heap.Sinking.{DownInv}
use swindon.Heap.Contract.{IsHeap}

module _ ⦃l : Slabs⦄ {T : Type 0} ⦃o : Ord T⦄ where
  pub nth-swap_remove :
      (items : List (T × ℕ)) (idx : ℕ) (last : T × ℕ) (i : ℕ)
      → nth (swap_remove items idx last) i
        ≡ (if ltb (suc i) (length items) then if idx == i then some last else nth items i else none)
  nth-swap_remove items idx last i = ground (
    arith,
    nth-store (init items) idx i last,
    nth-init items i,
    nth-init items idx,
    is_some-nth items idx,
    is_some-nth items i,
  )

  -- The value of one slot is gone, and the others are as they were.
  pub record Removed (slot : ℕ) (h h' : Heap T) : Type 0 where
    pub heap : IsHeap h'
    pub values : (s : ℕ) → at h' s ≡ (if slot == s then none else at h s)

  -- What `remove` works on, up to `settle`.
  pub record Cut (slot idx : ℕ) (item last : T × ℕ) (h : Heap T) : Type 0 where
    pub heap : IsHeap h
    pub found : l.get h.index slot ≡ some idx
    pub there : nth h.items idx ≡ some item
    pub end : nth h.items (length h.items - 1) ≡ some last

  abbrev pub cut : ℕ → ℕ → T × ℕ → Heap T → Heap T
  cut slot idx last h = record {
    items = swap_remove h.items idx last;
    index = l.remove h.index slot;
  }

  -- The item that is removed is the last one.
  pub cut_end :
      (slot idx : ℕ) (item last : T × ℕ) (h : Heap T)
      → Cut slot idx item last h
      → idx ≡ length h.items - 1
      → Removed slot h (cut slot idx last h)
  cut_end slot idx item last h c e =
      let at_i = nth-swap_remove h.items idx last in
      record {
        heap = record {
          consistent = λ i s. ground (
            arith,
            at_i i,
            l.get-remove h.index slot s,
            c.heap.consistent i s,
            c.heap.consistent i slot,
            c.found,
            is_some-nth h.items i,
            e,
          );
          ordered = λ k p.
              ground (arith, at_i k, at_i (parent k), c.heap.ordered k p, is_some-nth h.items k, e);
        };
        values = λ s. elim (Option-cases (l.get h.index s)) [
          | inl g ↦ ground (arith, g, l.get-remove h.index slot s)
          | inr (i, g) ↦ ground (
            arith,
            g,
            at_i i,
            l.get-remove h.index slot s,
            c.heap.consistent i s,
            c.heap.consistent i slot,
            c.found,
            is_some-nth h.items i,
            e,
          )
        ];
      }

  abbrev pub refilled : ℕ → ℕ → T × ℕ → Heap T → Heap T
  refilled slot idx last h = record {
    items = swap_remove h.items idx last;
    index = l.write (l.remove h.index slot) last.1 idx;
  }

  -- The last item stands in for the one that is removed; the order is not restored yet.
  pub record Refilled (slot idx : ℕ) (last : T × ℕ) (h h' : Heap T) : Type 0 where
    pub consistent : IsConsistent h'
    pub values : (s : ℕ) → at h' s ≡ (if slot == s then none else at h s)

  pub refilled-Refilled :
      (slot idx : ℕ) (item last : T × ℕ) (h : Heap T)
      → Cut slot idx item last h
      → idx < length h.items - 1
      → Refilled slot idx last h (refilled slot idx last h)
  refilled-Refilled slot idx item last h c e =
      let at_i = nth-swap_remove h.items idx last in
      let n = length h.items - 1 in
      let i₁ = l.remove h.index slot in
      record {
        consistent = λ i s. ground (
          arith,
          at_i i,
          l.get-write i₁ last.1 s idx,
          l.get-remove h.index slot s,
          l.get-remove h.index slot last.1,
          c.heap.consistent i s,
          c.heap.consistent i slot,
          c.heap.consistent n last.1,
          c.heap.consistent n s,
          c.heap.consistent idx slot,
          c.heap.consistent idx s,
          c.found,
          c.end,
          c.there,
          is_some-nth h.items i,
          e,
        );
        values = λ s. elim (Option-cases (l.get h.index s)) [
          | inl g ↦ ground (
            arith,
            g,
            l.get-write i₁ last.1 s idx,
            l.get-remove h.index slot s,
            l.get-remove h.index slot last.1,
            c.heap.consistent n last.1,
            c.end,
          )
          | inr (i, g) ↦ ground (
            arith,
            g,
            at_i i,
            at_i idx,
            l.get-write i₁ last.1 s idx,
            l.get-remove h.index slot s,
            l.get-remove h.index slot last.1,
            c.heap.consistent i s,
            c.heap.consistent n last.1,
            c.heap.consistent n s,
            c.heap.consistent idx slot,
            c.heap.consistent idx s,
            c.found,
            c.end,
            c.there,
            is_some-nth h.items i,
            e,
          )
        ];
      }

  pub refilled-UpInv :
      (slot idx : ℕ) (item last : T × ℕ) (h : Heap T)
      → Cut slot idx item last h
      → idx < length h.items - 1
      → o.lt last.0 item.0 ≡ true
      → UpInv (refilled slot idx last h) idx
  refilled-UpInv slot idx item last h c e b =
      let at_i = nth-swap_remove h.items idx last in
      record {
        inside = ground (arith, at_i idx, e);
        edges = λ k p q. ground (
          arith,
          at_i k,
          at_i (parent k),
          c.heap.ordered k p,
          c.there,
          b,
          e,
          p,
          q,
          o.lt_asym last.0 item.0 b,
          le_trans (some last.0) (some item.0) (key h k),
        );
        bridged = λ k p q r. ground (
          arith,
          at_i k,
          at_i (parent idx),
          c.heap.ordered k p,
          c.heap.ordered idx r,
          c.there,
          e,
          p,
          q,
          r,
          le_trans (key h (parent idx)) (some item.0) (key h k),
        );
      }

  pub refilled-DownInv :
      (slot idx : ℕ) (item last : T × ℕ) (h : Heap T)
      → Cut slot idx item last h
      → idx < length h.items - 1
      → o.lt last.0 item.0 ≡ false
      → DownInv (refilled slot idx last h) idx
  refilled-DownInv slot idx item last h c e b =
      let at_i = nth-swap_remove h.items idx last in
      record {
        inside = ground (arith, at_i idx, e);
        edges = λ k p q. ground (
          arith,
          at_i k,
          at_i (parent k),
          c.heap.ordered k p,
          c.there,
          b,
          e,
          p,
          q,
          le_trans (key h (parent k)) (some item.0) (some last.0),
        );
        bridged = λ k p q r. ground (
          arith,
          at_i k,
          at_i (parent idx),
          c.heap.ordered k p,
          c.heap.ordered idx r,
          c.there,
          e,
          p,
          q,
          r,
          le_trans (key h (parent idx)) (some item.0) (key h k),
        );
      }
