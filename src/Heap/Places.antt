-- ===== src/Heap/Places.antt =====
-- The index of a heap, against its items; a heap seen as a map from slots to values.
use swindon.Prelude.{
  ℕ, ◌≡◌, ◌≢◌, ◌↔◌, Option, none, some, arith, length, ◌==◌, nat_eq, if◌then◌else◌, option_map,
  Option-cases, inl, inr,
}
use swindon.Outcome.{Returns}
use swindon.Heap.Slab.{Slabs, assign}
use swindon.Heap.Items.{nth, store, nth-store, length-store}
use swindon.Heap.Order.{Ord}
use swindon.Heap.Queue.{Heap, exchange}

module _ ⦃l : Slabs⦄ {T : Type 0} where
  abbrev pub slot_at : Heap T → ℕ → Option ℕ
  slot_at h i = option_map (λ x. x.1) (nth h.items i)

  abbrev pub key : Heap T → ℕ → Option T
  key h i = option_map (λ x. x.0) (nth h.items i)

  -- The value that belongs to a slot.
  abbrev pub at : Heap T → ℕ → Option T
  at h s = elim (l.get h.index s) [ none ↦ none | some i ↦ key h i ]

  -- A slot is indexed exactly where it stands.
  abbrev pub IsConsistent : Heap T → Type 0
  IsConsistent h = (i s : ℕ) → (slot_at h i ≡ some s) ↔ (l.get h.index s ≡ some i)

module _ ⦃l : Slabs⦄ {T : Type 0} ⦃o : Ord T⦄ where
  -- Two items changed places, and no slot lost its value.
  pub record Exchanged (h : Heap T) (a b : ℕ) (h' : Heap T) : Type 0 where
    pub consistent : IsConsistent h'
    pub values : (s : ℕ) → at h' s ≡ at h s
    pub keys :
        (i : ℕ) → key h' i ≡ (if b == i then key h a else if a == i then key h b else key h i)
    pub length : length h'.items ≡ length h.items

  pub exchange-Exchanged :
      (a b : ℕ) (h : Heap T) (x y : T × ℕ)
      → IsConsistent h
      → nth h.items a ≡ some x
      → nth h.items b ≡ some y
      → a ≢ b
      → Returns (Exchanged h a b) (exchange a b h)
  unfolding exchange assign
  exchange-Exchanged a b h x y c e f n =
      let ix : l.get h.index x.1 ≡ some a = (c a x.1).0 (ground (arith, e)) in
      let iy : l.get h.index y.1 ≡ some b = (c b y.1).0 (ground (arith, f)) in
      let index₁ = l.write h.index y.1 a in
      let ix₁ : l.get index₁ x.1 ≡ some a = ground (arith, l.get-write h.index y.1 x.1 a, ix, iy) in
      let items₁ = store h.items a y in
      rw (e, f, iy, ix₁)
        (record {
          consistent = λ i s. ground (
            arith,
            nth-store items₁ b i x,
            nth-store h.items a i y,
            nth-store h.items a b y,
            e,
            f,
            n,
            ix,
            iy,
            ix₁,
            l.get-write index₁ x.1 s b,
            l.get-write h.index y.1 s a,
            c i s,
            c a s,
            c b s,
          );
          values = λ s. elim (Option-cases (l.get h.index s)) [
            | inl g ↦
                ground (arith, g, ix, iy, l.get-write index₁ x.1 s b, l.get-write h.index y.1 s a)
            | inr (j, g) ↦ ground (
              arith,
              g,
              nth-store items₁ b a x,
              nth-store items₁ b b x,
              nth-store items₁ b j x,
              nth-store h.items a a y,
              nth-store h.items a b y,
              nth-store h.items a j y,
              e,
              f,
              n,
              ix,
              iy,
              ix₁,
              l.get-write index₁ x.1 s b,
              l.get-write h.index y.1 s a,
              c j s,
              c a s,
              c b s,
            )
          ];
          keys = λ i. ground (
            arith,
            nth-store items₁ b i x,
            nth-store h.items a i y,
            nth-store h.items a b y,
            e,
            f,
          );
          length = ground (arith, length-store items₁ b x, length-store h.items a y);
        })
