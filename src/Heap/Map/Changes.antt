-- ===== src/Heap/Map/Changes.antt =====
-- `get`, `get_mut`, `update` and `update_if_smaller` of `HeapMap`.
use swindon.Prelude.{
  ℕ, ◌≡◌, String, Option, none, arith, option_map, string_eq, nat_eq, Option-cases, inl, inr, subst,
}
use swindon.Outcome.{ok, ◌>>=◌, Returns, Returns->>=}
use swindon.Std.HashMap
use swindon.Timers.{later_of}
use swindon.Heap.Slab.{Slabs, take}
use swindon.Heap.Order.{pair_ord}
use swindon.Heap.Contract.{Pushed, push-Pushed}
use swindon.Heap.Cutting.{Removed}
use swindon.Heap.Removal.{remove-Removed}
use swindon.Heap.Queue
use swindon.Heap.Map.{HeapMap, get, get_mut, retime, update, update_if_smaller}
use swindon.Heap.Map.Entries.{changed}
use swindon.Heap.Map.State.{Found, found, entry-none, entry-found, Stores, entry}

module _ ⦃l : Slabs⦄ {V : Type 0} where
  -- `get` does not panic, and returns the value of the key.
  pub get-Stores :
      (k : String) (m : HeapMap V) (f : String → Option (ℕ × V))
      → Stores f m
      → get k m ≡ ok (option_map (λ e. e.1) (f k))
  unfolding get
  get-Stores k m f g = elim (Option-cases (HashMap.get m.map k)) [
    | inl e ↦ ground (arith, e, entry-none m k e, g.entries k)
    | inr (i, e) ↦
        let (s, t, v, o) = found m k i g.valid e in
        ground (arith, o.index, o.held, o.slot, entry-found m k i s t v o, g.entries k)
  ]

  changed-none :
      (k : String) (c : ℕ × V → ℕ × V) (m : HeapMap V) (f : String → Option (ℕ × V))
      → Stores f m
      → HashMap.get m.map k ≡ none
      → Stores (changed k c f) m
  changed-none k c m f g e = record {
    valid = g.valid;
    entries =
        λ j. ground (arith, e, entry-none m k e, g.entries j, g.entries k, string_eq.beq_iff k j);
  }

  abbrev written : ℕ → ℕ × String × V → HeapMap V → HeapMap V
  written i e m = record { heap = m.heap; map = m.map; slab = l.write m.slab i e }

  written-Stores :
      (k : String) (c : V → V) (m : HeapMap V) (f : String → Option (ℕ × V)) (i s t : ℕ) (v : V)
      → Stores f m
      → Found m k i s t v
      → Stores (changed k (λ (t, v). (t, c v)) f) (written i (s, k, c v) m)
  unfolding entry
  written-Stores k c m f i s t v g o =
      let slab = λ (j : ℕ). l.get-write m.slab i j (s, k, c v) in
      record {
        valid = record {
          heap = g.valid.heap;
          distinct = g.valid.distinct;
          known = λ j x. ground (arith, slab x, g.valid.known j x, o.held);
          timed = λ j x. ground (arith, slab x, g.valid.timed j x, o.held);
        };
        entries = λ j. elim (Option-cases (HashMap.get m.map j)) [
          | inl e ↦ ground (arith, e, g.entries j, o.index, string_eq.beq_iff k j)
          | inr (x, e) ↦ ground (
            arith,
            e,
            g.entries j,
            o.index,
            o.held,
            o.slot,
            slab x,
            g.valid.known j i,
            string_eq.beq_iff k j,
          )
        ];
      }

  -- A write through `get_mut` does not panic, and changes the value of the key.
  pub get_mut-Stores :
      (k : String) (c : V → V) (m : HeapMap V) (f : String → Option (ℕ × V))
      → Stores f m
      → Returns (Stores (changed k (λ (t, v). (t, c v)) f)) (get_mut k c m)
  unfolding get_mut
  get_mut-Stores k c m f g = elim (Option-cases (HashMap.get m.map k)) [
    | inl e ↦ rw (e, get_mut) (changed-none k (λ (t, v). (t, c v)) m f g e)
    | inr (i, e) ↦
        let (s, t, v, o) = found m k i g.valid e in
        rw (o.index, get_mut, o.held) (written-Stores k c m f i s t v g o)
  ]

  abbrev moved : String → ℕ → V → HeapMap V → ℕ → Queue.Heap (ℕ × ℕ) × ℕ → HeapMap V
  moved k i v m vac r = record {
    heap = r.0;
    map = HashMap.adjust m.map k (λ _. vac);
    slab = l.insert (l.remove m.slab i) (r.1, k, v);
  }

  moved-Stores :
      (k : String) (c : ℕ → ℕ) (m : HeapMap V) (f : String → Option (ℕ × V)) (i s t : ℕ) (v : V)
      (h : Queue.Heap (ℕ × ℕ)) (r : Queue.Heap (ℕ × ℕ) × ℕ)
      → Stores f m
      → Found m k i s t v
      → Removed s m.heap h
      → Pushed (c t, l.vacant (l.remove m.slab i)) h r
      → Stores (changed k (λ (t, v). (c t, v)) f) (moved k i v m (l.vacant (l.remove m.slab i)) r)
  unfolding entry
  moved-Stores k c m f i s t v h r g o q p =
      let vac = l.vacant (l.remove m.slab i) in
      let empty = l.get-vacant (l.remove m.slab i) in
      let cut_slab = λ (x : ℕ). l.get-remove m.slab i x in
      let new_slab = λ (x : ℕ). l.get-insert (l.remove m.slab i) (r.1, k, v) x in
      let new_map = λ (j : String). HashMap.get-adjust m.map k j (λ _. vac) in
      record {
        valid = record {
          heap = p.heap;
          distinct = HashMap.adjust-IsDistinct m.map k (λ _. vac) g.valid.distinct;
          known = λ j x. ground (
            arith,
            cut_slab x,
            cut_slab vac,
            new_slab x,
            new_map j,
            empty,
            o.index,
            o.held,
            g.valid.known j x,
            g.valid.known j i,
            g.valid.known j vac,
            g.valid.known k x,
            string_eq.beq_iff k j,
          );
          timed = λ j x. ground (
            arith,
            cut_slab x,
            cut_slab vac,
            new_slab x,
            empty,
            o.held,
            o.slot,
            p.values j,
            p.fresh,
            q.values j,
            q.values r.1,
            g.valid.timed j x,
            g.valid.timed j i,
            g.valid.timed j vac,
            g.valid.timed s x,
          );
        };
        entries = λ j. elim (Option-cases (HashMap.get m.map j)) [
          | inl e ↦ ground (arith, e, g.entries j, new_map j, o.index, string_eq.beq_iff k j)
          | inr (x, e) ↦ elim (Option-cases (l.get m.slab x)) [
            | inl n ↦ absurd (ground (arith, e, n, g.valid.known j x))
            | inr ((s', j', w), n) ↦ ground (
              arith,
              e,
              n,
              g.entries j,
              new_map j,
              new_slab x,
              new_slab vac,
              cut_slab x,
              cut_slab vac,
              empty,
              o.index,
              o.held,
              o.slot,
              p.values r.1,
              p.values s',
              p.fresh,
              q.values s',
              q.values r.1,
              g.valid.timed s' x,
              g.valid.timed s x,
              g.valid.known j x,
              g.valid.known j i,
              string_eq.beq_iff k j,
            )
          ]
        ];
      }

  retime-Stores :
      (k : String) (c : ℕ → ℕ) (m : HeapMap V) (f : String → Option (ℕ × V)) (i s t : ℕ) (v : V)
      → Stores f m
      → Found m k i s t v
      → Returns (Stores (changed k (λ (t, v). (c t, v)) f)) (retime k c i m)
  unfolding retime take
  retime-Stores k c m f i s t v g o =
      let vac = l.vacant (l.remove m.slab i) in
      let Post = Stores (changed k (λ (t, v). (c t, v)) f) in
      rw (o.held) (
        Returns->>= (λ x. (x.0 ≡ (t, i)) × Removed s m.heap x.1) Post (Queue.remove s m.heap)
          (λ x. Queue.push (c x.0.0, vac) x.1 >>= λ r. ok (moved k i v m vac r))
          (remove-Removed s (t, i) m.heap g.valid.heap o.slot)
          (λ x q.
            Returns->>= (Pushed (c x.0.0, vac) x.1) Post (Queue.push (c x.0.0, vac) x.1)
              (λ r. ok (moved k i v m vac r)) (push-Pushed (c x.0.0, vac) x.1 q.1.heap)
              (λ r p.
                moved-Stores k c m f i s t v x.1 r g o q.1
                  (subst (λ y. Pushed (c y.0, vac) x.1 r) q.0 p))))

  -- `update` does not panic, and sets the time of the key.
  pub update-Stores :
      (k : String) (t : ℕ) (m : HeapMap V) (f : String → Option (ℕ × V))
      → Stores f m
      → Returns (Stores (changed k (λ (d, v). (t, v)) f)) (update k t m)
  unfolding update
  update-Stores k t m f g = elim (Option-cases (HashMap.get m.map k)) [
    | inl e ↦ rw (e, update) (changed-none k (λ (d, v). (t, v)) m f g e)
    | inr (i, e) ↦
        let (s, d, v, o) = found m k i g.valid e in
        rw (e, update) (retime-Stores k (λ _. t) m f i s d v g o)
  ]

  -- `update_if_smaller` does not panic, and keeps the larger one of the times.
  pub update_if_smaller-Stores :
      (k : String) (t : ℕ) (m : HeapMap V) (f : String → Option (ℕ × V))
      → Stores f m
      → Returns (Stores (changed k (λ (d, v). (later_of t d, v)) f)) (update_if_smaller k t m)
  unfolding update_if_smaller
  update_if_smaller-Stores k t m f g = elim (Option-cases (HashMap.get m.map k)) [
    | inl e ↦ rw (e, update_if_smaller) (changed-none k (λ (d, v). (later_of t d, v)) m f g e)
    | inr (i, e) ↦
        let (s, d, v, o) = found m k i g.valid e in
        rw (e, update_if_smaller) (retime-Stores k (later_of t) m f i s d v g o)
  ]
