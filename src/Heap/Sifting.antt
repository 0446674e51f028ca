-- ===== src/Heap/Sifting.antt =====
-- The order of a heap, and `percolate_up`.
use swindon.Prelude.{
  ℕ, zero, suc, ◌<◌, ◌≡◌, ◌≢◌, refl, ◌∙◌, Bool, true, not, Option, none, some, arith, is_some,
  Option-cases, Bool-cases, inl, inr, nat_eq,
}
use swindon.Outcome.{Returns, Returns->>=, Returns-imp}
use swindon.Heap.Slab.{Slabs}
use swindon.Heap.Items.{nth, is_some-nth}
use swindon.Heap.Order.{Ord}
use swindon.Heap.Queue.{Heap, parent, exchange, up_loop, percolate_up}
use swindon.Heap.Places.{IsConsistent, at, key, Exchanged, exchange-Exchanged}

module _ ⦃l : Slabs⦄ {T : Type 0} ⦃o : Ord T⦄ where
  -- A value that is not there is in order with every other.
  abbrev pub le : Option T → Option T → Bool
  le (some a) (some b) = not (o.lt b a)
  le _ _ = true

  pub le_trans :
      (a b c : Option T) → is_some b ≡ true → le a b ≡ true → le b c ≡ true → le a c ≡ true
  le_trans (some a) (some b) (some c) s p q = ground (arith, o.le_trans a b c, p, q)
  le_trans (some a) (some b) none s p q = refl
  le_trans none (some b) c s p q = refl
  le_trans a none c s p q = cc

  abbrev pub IsOrdered : Heap T → Type 0
  IsOrdered h = (c : ℕ) → 0 < c → le (key h (parent c)) (key h c) ≡ true

  -- `h'` holds what `h` holds, in order.
  pub record Sifted (h h' : Heap T) : Type 0 where
    pub consistent : IsConsistent h'
    pub ordered : IsOrdered h'
    pub values : (s : ℕ) → at h' s ≡ at h s

  -- Only the edge above `i` may be out of order.
  pub record UpInv (h : Heap T) (i : ℕ) : Type 0 where
    pub inside : is_some (nth h.items i) ≡ true
    pub edges : (c : ℕ) → 0 < c → c ≢ i → le (key h (parent c)) (key h c) ≡ true
    pub bridged : (c : ℕ) → 0 < c → parent c ≡ i → 0 < i → le (key h (parent i)) (key h c) ≡ true

  above_inside :
      (h : Heap T) (i : ℕ)
      → is_some (nth h.items i) ≡ true
      → is_some (nth h.items (parent i)) ≡ true
  above_inside h i e = ground (arith, e, is_some-nth h.items i, is_some-nth h.items (parent i))

  Exchanged-UpInv :
      (h h' : Heap T) (i : ℕ) (x y : T × ℕ)
      → UpInv h i
      → 0 < i
      → nth h.items i ≡ some x
      → nth h.items (parent i) ≡ some y
      → o.lt x.0 y.0 ≡ true
      → Exchanged h (parent i) i h'
      → UpInv h' (parent i)
  Exchanged-UpInv h h' i x y v pos e f below s =
      let p = parent i in
      record {
        inside = ground (arith, e, f, is_some-nth h.items p, is_some-nth h'.items p, s.length);
        edges = λ c q n. ground (
          arith,
          s.keys c,
          s.keys (parent c),
          v.edges c,
          v.bridged c,
          e,
          f,
          below,
          n,
          q,
          pos,
          o.lt_asym x.0 y.0 below,
          le_trans (key h i) (key h p) (key h c),
        );
        bridged = λ c q n r. ground (
          arith,
          s.keys c,
          s.keys (parent p),
          v.edges c,
          v.edges p,
          e,
          f,
          below,
          n,
          q,
          pos,
          r,
          le_trans (key h (parent p)) (key h p) (key h c),
        );
      }

  pub Sifted-after : (h h' k : Heap T) (a b : ℕ) → Exchanged h a b h' → Sifted h' k → Sifted h k
  Sifted-after h h' k a b s t = record {
    consistent = t.consistent;
    ordered = t.ordered;
    values = λ c. t.values c ∙ s.values c;
  }

  up_loop-Sifted :
      (fuel i : ℕ) (h : Heap T)
      → i < fuel
      → IsConsistent h
      → UpInv h i
      → Returns (Sifted h) (up_loop fuel i h)
  unfolding up_loop
  up_loop-Sifted zero i h f c v = absurd (omega (arith, f))
  up_loop-Sifted (suc fuel) zero h f c v = record {
    consistent = c;
    ordered = λ j q. v.edges j q (ground (arith, q));
    values = λ s. refl;
  }
  up_loop-Sifted (suc fuel) (suc j) h f c v =
      let i = suc j in
      elim (Option-cases (nth h.items i)) [
        | inl e ↦ absurd (ground (arith, v.inside, e))
        | inr (x, e) ↦ elim (Option-cases (nth h.items (parent i))) [
          | inl g ↦ absurd (ground (arith, above_inside h i v.inside, g))
          | inr (y, g) ↦ elim (Bool-cases (o.lt x.0 y.0)) [
            | inr b ↦
                rw (e, g, b)
                  (record {
                    consistent = c;
                    ordered = λ k q. ground (arith, v.edges k q, e, g, b);
                    values = λ s. refl;
                  })
            | inl b ↦
                rw (e, g, b)
                  (Returns->>= (Exchanged h (parent i) i) (Sifted h) (exchange (parent i) i h)
                    (up_loop fuel (parent i))
                    (exchange-Exchanged (parent i) i h y x c g e (λ n. omega (arith, n)))
                    (λ h' s.
                      Returns-imp (Sifted h') (Sifted h) (up_loop fuel (parent i) h')
                        (λ k. Sifted-after h h' k (parent i) i s)
                        (up_loop-Sifted fuel (parent i) h' (omega (arith, f)) s.consistent
                          (Exchanged-UpInv h h' i x y v (omega arith) e g b s))))
          ]
        ]
      ]

  pub percolate_up-Sifted :
      (i : ℕ) (h : Heap T) → IsConsistent h → UpInv h i → Returns (Sifted h) (percolate_up i h)
  unfolding percolate_up
  percolate_up-Sifted i h c v = up_loop-Sifted (suc i) i h (omega arith) c v
