-- ===== src/Heap/Map/Taking.antt =====
-- `peek` and `pop` of `HeapMap`.
use swindon.Prelude.{
  ℕ, ◌≡◌, ◌+◌, String, Option, none, some, arith, if◌then◌else◌, string_eq, nat_eq, Option-cases,
  inl, inr, is_some,
}
use swindon.Outcome.{ok, Returns, Returns->>=}
use swindon.Std.HashMap
use swindon.Heap.Slab.{Slabs, take}
use swindon.Heap.Order.{pair_ord, lt-pair}
use swindon.Heap.Places.{at}
use swindon.Heap.Contract.{Least, peek-Least, peek-none}
use swindon.Heap.Cutting.{Removed}
use swindon.Heap.Removal.{pop-Removed, pop-none}
use swindon.Heap.Queue
use swindon.Heap.Map.{HeapMap, len, peek, pop, taken}
use swindon.Heap.Map.Entries.{IsTop, Shows, without}
use swindon.Heap.Map.State.{IsMap, Found, found, entry-none, entry-found, Stores, entry}

module _ ⦃l : Slabs⦄ {V : Type 0} where
  holder :
      (m : HeapMap V) (s t i : ℕ)
      → IsMap m
      → at m.heap s ≡ some (t, i)
      → (k : String) × (v : V) × Found m k i s t v
  holder m s t i g e = elim (Option-cases (l.get m.slab i)) [
    | inl n ↦ absurd (ground (arith, e, n, g.timed s i))
    | inr ((s', k, v), n) ↦ (
      k,
      v,
      record {
        index = ground (arith, n, g.known k i);
        held = ground (arith, e, n, g.timed s i);
        slot = e;
      },
    )
  ]

  holder-IsTop :
      (k : String) (i s t : ℕ) (v : V) (m : HeapMap V) (f : String → Option (ℕ × V))
      → Stores f m
      → Found m k i s t v
      → Least m.heap (t, i)
      → IsTop f k t v
  holder-IsTop k i s t v m f g o w = record {
    here = ground (arith, g.entries k, entry-found m k i s t v o);
    least = λ j d x e. elim (Option-cases (HashMap.get m.map j)) [
      | inl n ↦ absurd (ground (arith, e, n, g.entries j, entry-none m j n))
      | inr (i', n) ↦
          let (s', d', x', o') = found m j i' g.valid n in
          ground (
            arith,
            e,
            g.entries j,
            entry-found m j i' s' d' x' o',
            lt-pair (d', i') (t, i) (w.least s' (d', i') o'.slot),
          )
    ];
  }

  -- The heap has no item, and so the map no entry.
  peek-empty :
      (m : HeapMap V) (f : String → Option (ℕ × V)) (k : String)
      → Stores f m
      → Queue.peek m.heap ≡ none
      → f k ≡ none
  peek-empty m f k g e = elim (Option-cases (HashMap.get m.map k)) [
    | inl n ↦ ground (arith, n, g.entries k, entry-none m k n)
    | inr (i, n) ↦
        let (s, d, x, o) = found m k i g.valid n in
        absurd (ground (arith, o.slot, peek-none m.heap s g.valid.heap e))
  ]

  -- `peek` does not panic, and shows an entry with the least time.
  pub peek-Shows :
      (m : HeapMap V) (f : String → Option (ℕ × V)) → Stores f m → Returns (Shows f) (peek m)
  unfolding peek
  peek-Shows m f g = elim (Option-cases (Queue.peek m.heap)) [
    | inl e ↦ rw (e, peek) (λ k. peek-empty m f k g e)
    | inr ((t, i), e) ↦
        let w = peek-Least m.heap (t, i) g.valid.heap e in
        let (k, v, o) = holder m w.slot t i g.valid w.here in
        rw (e, peek, o.held) (holder-IsTop k i w.slot t v m f g o w)
  ]

  abbrev dropped : String → ℕ → HeapMap V → Queue.Heap (ℕ × ℕ) → HeapMap V
  dropped k i m h = record { heap = h; map = HashMap.remove m.map k; slab = l.remove m.slab i }

  dropped-Stores :
      (k : String) (i s t : ℕ) (v : V) (m : HeapMap V) (f : String → Option (ℕ × V))
      (h : Queue.Heap (ℕ × ℕ))
      → Stores f m
      → Found m k i s t v
      → Removed s m.heap h
      → Stores (without (some (k, t, v)) f) (dropped k i m h)
  unfolding entry
  dropped-Stores k i s t v m f h g o q =
      let slab = λ (x : ℕ). l.get-remove m.slab i x in
      let new_map = λ (j : String). HashMap.get-remove m.map k j in
      record {
        valid = record {
          heap = q.heap;
          distinct = HashMap.remove-IsDistinct m.map k g.valid.distinct;
          known = λ j x. ground (
            arith,
            slab x,
            new_map j,
            o.index,
            o.held,
            g.valid.known j x,
            g.valid.known j i,
            string_eq.beq_iff k j,
          );
          timed = λ j x.
              ground
                (arith, slab x, q.values j, o.held, o.slot, g.valid.timed j x, g.valid.timed j i);
        };
        entries = λ j. elim (Option-cases (HashMap.get m.map j)) [
          | inl e ↦ ground (arith, e, g.entries j, new_map j, string_eq.beq_iff k j)
          | inr (x, e) ↦ elim (Option-cases (l.get m.slab x)) [
            | inl n ↦ absurd (ground (arith, e, n, g.valid.known j x))
            | inr ((s', j', w), n) ↦ ground (
              arith,
              e,
              n,
              g.entries j,
              new_map j,
              slab x,
              o.index,
              o.held,
              o.slot,
              q.values s',
              g.valid.timed s' x,
              g.valid.timed s x,
              g.valid.known j x,
              g.valid.known j i,
              string_eq.beq_iff k j,
            )
          ]
        ];
      }

  abbrev pub Popped :
      HeapMap V → (String → Option (ℕ × V)) → Option (String × ℕ × V) × HeapMap V → Type 0
  Popped m f r =
      (peek m ≡ ok r.0)
      × Shows f r.0
      × Stores (without r.0 f) r.1
      × (len r.1 + (if is_some r.0 then 1 else 0) ≡ len m)

  taken-Popped :
      (m : HeapMap V) (f : String → Option (ℕ × V)) (s t i : ℕ) (top : Option (ℕ × ℕ))
      (h : Queue.Heap (ℕ × ℕ))
      → Stores f m
      → Queue.peek m.heap ≡ some (t, i)
      → top ≡ some (t, i)
      → at m.heap s ≡ some (t, i)
      → Removed s m.heap h
      → Returns (Popped m f) (taken top (record { heap = h; map = m.map; slab = m.slab }))
  unfolding peek taken take
  taken-Popped m f s t i top h g e a b q =
      let (k, v, o) = holder m s t i g.valid b in
      rw (a, taken, o.held, o.index)
        (
          ground (arith, e, o.held),
          holder-IsTop k i s t v m f g o (peek-Least m.heap (t, i) g.valid.heap e),
          dropped-Stores k i s t v m f h g o q,
          ground (arith, HashMap.length-remove m.map k i g.valid.distinct o.index),
        )

  -- `pop` does not panic, and takes the entry that `peek` shows.
  pub pop-Stores :
      (m : HeapMap V) (f : String → Option (ℕ × V)) → Stores f m → Returns (Popped m f) (pop m)
  unfolding pop peek taken
  pop-Stores m f g = elim (Option-cases (Queue.peek m.heap)) [
    | inl e ↦
        rw (pop-none m.heap e, pop)
          (
            ground (arith, e),
            (λ k. peek-empty m f k g e),
            record { valid = g.valid; entries = g.entries },
            omega arith,
          )
    | inr ((t, i), e) ↦
        Returns->>=
          (λ r.
            (r.0 ≡ some (t, i))
            × (slot : ℕ) × (at m.heap slot ≡ some (t, i))
            × Removed slot m.heap r.1)
          (Popped m f) (Queue.pop m.heap)
          (λ x. taken x.0 (record { heap = x.1; map = m.map; slab = m.slab }))
          (pop-Removed (t, i) m.heap g.valid.heap e)
          (λ x p. taken-Popped m f p.1 t i x.0 x.1 g e p.0 p.2 p.3)
  ]
