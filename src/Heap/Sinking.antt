-- ===== src/Heap/Sinking.antt =====
-- `percolate_down`.
use swindon.Prelude.{
  ℕ, zero, suc, ◌+◌, ◌*◌, ◌≤◌, ◌<◌, ◌≡◌, ◌≢◌, refl, true, false, Option, none, some, arith, length,
  nat_beq, if◌then◌else◌, is_some, Option-cases, Bool-cases, inl, inr, subst, nat_eq, ◌⊎◌,
}
use swindon.Outcome.{Outcome, ok, ◌>>=◌, Returns, Returns->>=, Returns-imp}
use swindon.Heap.Slab.{Slabs}
use swindon.Heap.Items.{nth, is_some-nth}
use swindon.Heap.Order.{Ord}
use swindon.Heap.Queue.{Heap, parent, exchange, lower_child, down_loop, percolate_down}
use swindon.Heap.Places.{IsConsistent, key, Exchanged, exchange-Exchanged}
use swindon.Heap.Sifting.{le, Sifted, Sifted-after}

children : (i c : ℕ) → 0 < c → parent c ≡ i → (c ≡ 2 * i + 1) ⊎ (c ≡ 2 * i + 2)
children i c p q = ground (arith, p, q)

module _ {T : Type 0} ⦃o : Ord T⦄ where
  le_refl : (a : T) → o.lt a a ≡ false
  le_refl a = ground (arith, o.lt_asym a a)

  lt_trans : (a b c : T) → o.lt a b ≡ true → o.lt b c ≡ true → o.lt a c ≡ true
  lt_trans a b c p q = ground (arith, p, q, o.le_trans c a b, o.lt_asym b c, o.lt_asym a b)

module _ ⦃l : Slabs⦄ {T : Type 0} ⦃o : Ord T⦄ where
  -- Only the edges below `i` may be out of order.
  pub record DownInv (h : Heap T) (i : ℕ) : Type 0 where
    pub inside : is_some (nth h.items i) ≡ true
    pub edges : (c : ℕ) → 0 < c → parent c ≢ i → le (key h (parent c)) (key h c) ≡ true
    pub bridged : (c : ℕ) → 0 < c → parent c ≡ i → 0 < i → le (key h (parent i)) (key h c) ≡ true

  -- The child that the loop goes on with has the least value of the two; or both are in order.
  record Lower (h : Heap T) (i : ℕ) (m : ℕ) : Type 0 where
    inside : is_some (nth h.items m) ≡ true
    child : (m ≡ 2 * i + 1) ⊎ (m ≡ 2 * i + 2)
    below : le (key h i) (key h m) ≡ false
    least : (c : ℕ) → 0 < c → parent c ≡ i → le (key h m) (key h c) ≡ true

  abbrev Chosen : Heap T → ℕ → Option ℕ → Type 0
  Chosen h i none = (c : ℕ) → 0 < c → parent c ≡ i → le (key h i) (key h c) ≡ true
  Chosen h i (some m) = Lower h i m

  at_children :
      (h : Heap T) (a : Option T) (i : ℕ)
      → le a (key h (2 * i + 1)) ≡ true
      → le a (key h (2 * i + 2)) ≡ true
      → (c : ℕ) → 0 < c
      → parent c ≡ i
      → le a (key h c) ≡ true
  at_children h a i p q c r s = ground (arith, p, q, children i c r s)

  both :
      (h : Heap T) (i : ℕ) (x y z : T × ℕ)
      → nth h.items i ≡ some x
      → nth h.items (2 * i + 1) ≡ some y
      → nth h.items (2 * i + 2) ≡ some z
      → Returns (Chosen h i) (
          lower_child x.0
            (2 * i + 1)
            (2 * i + 2)
            (nth h.items (2 * i + 1))
            (nth h.items (2 * i + 2)))
  unfolding lower_child
  both h i x y z e f g =
      let left = 2 * i + 1 in
      let right = 2 * i + 2 in
      elim (Bool-cases (o.lt y.0 x.0)) [
        | inl b ↦ elim (Bool-cases (o.lt z.0 y.0)) [
          | inl d ↦
              rw (f, g, b, d)
                (record {
                  inside = ground (arith, g);
                  child = inr refl;
                  below = ground (arith, e, g, b, d, lt_trans z.0 y.0 x.0);
                  least =
                      at_children h (key h right) i (ground (arith, f, g, d, o.lt_asym z.0 y.0))
                        (ground (arith, g, le_refl z.0));
                })
          | inr d ↦
              rw (f, g, b, d)
                (record {
                  inside = ground (arith, f);
                  child = inl refl;
                  below = ground (arith, e, f, b);
                  least =
                      at_children h (key h left) i (ground (arith, f, le_refl y.0))
                        (ground (arith, f, g, d));
                })
        ]
        | inr b ↦ elim (Bool-cases (o.lt z.0 x.0)) [
          | inl d ↦
              rw (f, g, b, d)
                (record {
                  inside = ground (arith, g);
                  child = inr refl;
                  below = ground (arith, e, g, d);
                  least =
                      at_children h (key h right) i
                        (ground (arith, f, g, b, d, o.lt_asym z.0 x.0, o.le_trans z.0 x.0 y.0))
                        (ground (arith, g, le_refl z.0));
                })
          | inr d ↦
              rw (f, g, b, d)
                (at_children h (key h i) i (ground (arith, e, f, b)) (ground (arith, e, g, d)))
        ]
      ]

  lower_child-Chosen :
      (h : Heap T) (i : ℕ) (x : T × ℕ)
      → nth h.items i ≡ some x
      → Returns (Chosen h i) (
          lower_child x.0
            (2 * i + 1)
            (2 * i + 2)
            (nth h.items (2 * i + 1))
            (nth h.items (2 * i + 2)))
  unfolding lower_child
  lower_child-Chosen h i x e =
      let left = 2 * i + 1 in
      let right = 2 * i + 2 in
      elim (Option-cases (nth h.items left)) [
        | inl f ↦ elim (Option-cases (nth h.items right)) [
          | inl g ↦ rw (f, g) (at_children h (key h i) i (ground (arith, f)) (ground (arith, g)))
          | inr (z, g) ↦
              absurd (ground (arith, f, g, is_some-nth h.items left, is_some-nth h.items right))
        ]
        | inr (y, f) ↦ elim (Option-cases (nth h.items right)) [
          | inl g ↦ elim (Bool-cases (o.lt y.0 x.0)) [
            | inr b ↦
                rw (f, g, b)
                  (at_children h (key h i) i (ground (arith, e, f, b)) (ground (arith, g)))
            | inl b ↦
                rw (f, g, b)
                  (record {
                    inside = ground (arith, f);
                    child = inl refl;
                    below = ground (arith, e, f, b);
                    least =
                        at_children h (key h left) i (ground (arith, f, le_refl y.0))
                          (ground (arith, g));
                  })
          ]
          | inr (z, g) ↦ both h i x y z e f g
        ]
      ]

  le_total : (a b : Option T) → le a b ≡ false → le b a ≡ true
  le_total (some a) (some b) p = ground (arith, o.lt_asym b a, p)
  le_total (some a) none p = cc
  le_total none b p = cc

  Exchanged-DownInv :
      (h h' : Heap T) (i m : ℕ) → DownInv h i → Lower h i m → Exchanged h i m h' → DownInv h' m
  Exchanged-DownInv h h' i m v w s = record {
    inside = ground (arith, w.inside, is_some-nth h.items m, is_some-nth h'.items m, s.length);
    edges = λ c q n. ground (
      arith,
      s.keys c,
      s.keys (parent c),
      v.edges c,
      v.bridged m,
      v.bridged c,
      w.least c,
      w.child,
      n,
      q,
      le_total (key h i) (key h m) w.below,
    );
    bridged = λ c q n r. ground (arith, s.keys c, s.keys (parent m), v.edges c, w.child, n, q, r);
  }

module _ ⦃l : Slabs⦄ (T : Type 0) ⦃o : Ord T⦄ where
  -- The rounds that are left do their work.
  abbrev Sinks : ℕ → Type 0
  Sinks fuel =
      (i : ℕ) (h : Heap T)
      → length h.items < fuel + i
      → IsConsistent h
      → DownInv h i
      → Returns (Sifted h) (down_loop fuel i h)

module _ ⦃l : Slabs⦄ {T : Type 0} ⦃o : Ord T⦄ where
  sink :
      (fuel i : ℕ) (h : Heap T)
      → Sinks T fuel
      → length h.items ≤ fuel + i
      → IsConsistent h
      → DownInv h i
      → (m : ℕ) → Lower h i m
      → Returns (Sifted h) (exchange i m h >>= down_loop fuel m)
  sink fuel i h ih f c v m w = elim (Option-cases (nth h.items i)) [
    | inl e ↦ absurd (ground (arith, e, v.inside))
    | inr (x, e) ↦ elim (Option-cases (nth h.items m)) [
      | inl g ↦ absurd (ground (arith, g, w.inside))
      | inr (y, g) ↦
          Returns->>= (Exchanged h i m) (Sifted h) (exchange i m h) (down_loop fuel m)
            (exchange-Exchanged i m h x y c e g (λ n. omega (arith, n, w.child)))
            (λ h' s.
              Returns-imp (Sifted h') (Sifted h) (down_loop fuel m h')
                (λ k. Sifted-after h h' k i m s)
                (ih m h' (omega (arith, f, w.child, s.length)) s.consistent
                  (Exchanged-DownInv h h' i m v w s)))
    ]
  ]

  after_choice :
      (fuel i : ℕ) (h : Heap T)
      → Sinks T fuel
      → length h.items ≤ fuel + i
      → IsConsistent h
      → DownInv h i
      → (child : Option ℕ) → Chosen h i child
      → Returns (Sifted h) (elim child as (λ x. Outcome (Heap T)) [
        | none ↦ ok h
        | some m ↦
            if nat_beq m (2 * i + 1)
            then exchange i (2 * i + 1) h >>= down_loop fuel (2 * i + 1)
            else exchange i (2 * i + 2) h >>= down_loop fuel (2 * i + 2)
      ])
  after_choice fuel i h ih f c v none d = record {
    consistent = c;
    ordered = λ k q. ground (arith, v.edges k q, d k q);
    values = λ s. refl;
  }
  after_choice fuel i h ih f c v (some m) w = elim (Bool-cases (nat_beq m (2 * i + 1))) [
    | inl b ↦ rw b (
        subst (λ k. Returns (Sifted h) (exchange i k h >>= down_loop fuel k)) (ground (arith, b))
          (sink fuel i h ih f c v m w))
    | inr b ↦ rw b (
        subst (λ k. Returns (Sifted h) (exchange i k h >>= down_loop fuel k))
          (ground (arith, b, w.child)) (sink fuel i h ih f c v m w))
  ]

  down_loop-Sifted :
      (fuel i : ℕ) (h : Heap T)
      → length h.items < fuel + i
      → IsConsistent h
      → DownInv h i
      → Returns (Sifted h) (down_loop fuel i h)
  unfolding down_loop
  down_loop-Sifted zero i h f c v = absurd (ground (arith, f, v.inside, is_some-nth h.items i))
  down_loop-Sifted (suc fuel) i h f c v = elim (Option-cases (nth h.items i)) [
    | inl e ↦ absurd (ground (arith, v.inside, e))
    | inr (x, e) ↦ rw e (
        Returns->>= (Chosen h i) (Sifted h)
          (lower_child x.0 (2 * i + 1) (2 * i + 2) (nth h.items (2 * i + 1))
            (nth h.items (2 * i + 2)))
          _ (lower_child-Chosen h i x e)
          (after_choice fuel i h (down_loop-Sifted fuel) (omega (arith, f)) c v))
  ]

  pub percolate_down-Sifted :
      (i : ℕ) (h : Heap T) → IsConsistent h → DownInv h i → Returns (Sifted h) (percolate_down i h)
  unfolding percolate_down
  percolate_down-Sifted i h c v = down_loop-Sifted (suc (length h.items)) i h (omega arith) c v
