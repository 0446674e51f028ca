-- ===== src/Heap/Map/Insertion.antt =====
-- `insert` of `HeapMap`.
use swindon.Prelude.{
  ℕ, ◌≡◌, String, Option, none, some, arith, option_map, if◌then◌else◌, ◌==◌, string_eq, nat_eq,
  Option-cases, inl, inr,
}
use swindon.Outcome.{ok, Returns, Returns->>=}
use swindon.Std.HashMap
use swindon.Heap.Slab.{Slabs, take}
use swindon.Heap.Order.{pair_ord}
use swindon.Heap.Contract.{Pushed, push-Pushed}
use swindon.Heap.Cutting.{Removed}
use swindon.Heap.Removal.{remove-Removed}
use swindon.Heap.Queue
use swindon.Heap.Map.{HeapMap, insert, replace}
use swindon.Heap.Map.Entries.{put}
use swindon.Heap.Map.State.{IsMap, Found, found, entry-none, entry-found, Stores, entry}

module _ ⦃l : Slabs⦄ {V : Type 0} where
  abbrev inserted : String → ℕ → V → HeapMap V → Queue.Heap (ℕ × ℕ) × ℕ → HeapMap V
  inserted k t v m r = record {
    heap = r.0;
    map = HashMap.insert m.map k (l.vacant m.slab);
    slab = l.insert m.slab (r.1, k, v);
  }

  inserted-Stores :
      (k : String) (t : ℕ) (v : V) (m : HeapMap V) (r : Queue.Heap (ℕ × ℕ) × ℕ)
      → IsMap m
      → HashMap.get m.map k ≡ none
      → Pushed (t, l.vacant m.slab) m.heap r
      → Stores (put k t v (entry m)) (inserted k t v m r)
  unfolding entry
  inserted-Stores k t v m r g e p =
      let new_slab = l.get-insert m.slab (r.1, k, v) in
      let vac = l.vacant m.slab in
      let new_map : (j : String)
          → HashMap.get (HashMap.insert m.map k vac) j
            ≡ (if k == j then some vac else HashMap.get m.map j) =
        λ j. HashMap.get-insert m.map k j vac in
      record {
        valid = record {
          heap = p.heap;
          distinct = HashMap.insert-IsDistinct m.map k vac g.distinct;
          known = λ j i. ground (
            arith,
            new_slab i,
            new_map j,
            g.known j i,
            g.known k i,
            e,
            l.get-vacant m.slab,
            g.known j vac,
            string_eq.beq_iff k j,
          );
          timed = λ s i. ground (
            arith,
            new_slab i,
            p.values s,
            p.fresh,
            g.timed s i,
            g.timed r.1 i,
            l.get-vacant m.slab,
            g.timed s vac,
          );
        };
        entries = λ j. elim (Option-cases (HashMap.get m.map j)) [
          | inl f ↦ ground (arith, f, new_map j, new_slab vac, p.values r.1)
          | inr (i, f) ↦ elim (Option-cases (l.get m.slab i)) [
            | inl q ↦ absurd (ground (arith, f, q, g.known j i))
            | inr ((s, j', w), q) ↦ ground (
              arith,
              f,
              q,
              new_map j,
              new_slab i,
              new_slab vac,
              p.values r.1,
              p.values s,
              p.fresh,
              g.timed s i,
              g.known j i,
              l.get-vacant m.slab,
            )
          ]
        ];
      }

  abbrev replaced :
      String → ℕ → ℕ → V → HeapMap V → Queue.Heap (ℕ × ℕ) × ℕ → Queue.Heap (ℕ × ℕ) → HeapMap V
  replaced k i t v m r h = record {
    heap = h;
    map = HashMap.insert m.map k (l.vacant m.slab);
    slab = l.remove (l.insert m.slab (r.1, k, v)) i;
  }

  put-Stores :
      (k : String) (t : ℕ) (v : V) (m : HeapMap V) (f : String → Option (ℕ × V)) (m' : HeapMap V)
      → Stores f m
      → Stores (put k t v (entry m)) m'
      → Stores (put k t v f) m'
  put-Stores k t v m f m' g h = record {
    valid = h.valid;
    entries = λ j. ground (arith, h.entries j, g.entries j);
  }

  replaced-Stores :
      (k : String) (t : ℕ) (v : V) (m : HeapMap V) (r : Queue.Heap (ℕ × ℕ) × ℕ) (i₀ s₀ t₀ : ℕ)
      (v₀ : V) (h : Queue.Heap (ℕ × ℕ))
      → IsMap m
      → Found m k i₀ s₀ t₀ v₀
      → Pushed (t, l.vacant m.slab) m.heap r
      → Removed s₀ r.0 h
      → Stores (put k t v (entry m)) (replaced k i₀ t v m r h)
  unfolding entry
  replaced-Stores k t v m r i₀ s₀ t₀ v₀ h g o p q =
      let new_slab = l.get-insert m.slab (r.1, k, v) in
      let cut_slab = l.get-remove (l.insert m.slab (r.1, k, v)) i₀ in
      let vac = l.vacant m.slab in
      let new_map : (j : String)
          → HashMap.get (HashMap.insert m.map k vac) j
            ≡ (if k == j then some vac else HashMap.get m.map j) =
        λ j. HashMap.get-insert m.map k j vac in
      record {
        valid = record {
          heap = q.heap;
          distinct = HashMap.insert-IsDistinct m.map k vac g.distinct;
          known = λ j i. ground (
            arith,
            new_slab i,
            cut_slab i,
            new_map j,
            g.known j i,
            g.known k i,
            o.index,
            o.held,
            l.get-vacant m.slab,
            g.known j vac,
            string_eq.beq_iff k j,
          );
          timed = λ s i. ground (
            arith,
            new_slab i,
            cut_slab i,
            p.values s,
            q.values s,
            p.fresh,
            g.timed s i,
            g.timed r.1 i,
            l.get-vacant m.slab,
            g.timed s vac,
            g.timed s i₀,
            o.held,
            o.slot,
          );
        };
        entries = λ j. elim (Option-cases (HashMap.get m.map j)) [
          | inl f ↦ ground (
            arith,
            f,
            new_map j,
            new_slab vac,
            cut_slab vac,
            p.values r.1,
            q.values r.1,
            p.fresh,
            o.index,
            o.held,
            o.slot,
            l.get-vacant m.slab,
          )
          | inr (i, f) ↦ elim (Option-cases (l.get m.slab i)) [
            | inl q ↦ absurd (ground (arith, f, q, g.known j i))
            | inr ((s, j', w), q') ↦ ground (
              arith,
              f,
              q',
              new_map j,
              new_slab i,
              new_slab vac,
              cut_slab i,
              cut_slab vac,
              p.values r.1,
              p.values s,
              q.values r.1,
              q.values s,
              p.fresh,
              g.timed s i,
              g.timed s i₀,
              g.known j i,
              g.known j i₀,
              l.get-vacant m.slab,
              o.held,
              o.slot,
              o.index,
              string_eq.beq_iff k j,
            )
          ]
        ];
      }

  -- `insert` returns the value that the key had, and a map that has the new one.
  pub insert-Stores :
      (k : String) (t : ℕ) (v : V) (m : HeapMap V) (f : String → Option (ℕ × V))
      → Stores f m
      → Returns
          (λ r. (r.0 ≡ option_map (λ e. e.1) (f k)) × Stores (put k t v f) r.1)
          (insert k t v m)
  unfolding insert replace take
  insert-Stores k t v m f g =
      let Post : Option V × HeapMap V → Type 0 =
        λ r. (r.0 ≡ option_map (λ e. e.1) (f k)) × Stores (put k t v f) r.1 in
      let pushed = push-Pushed (t, l.vacant m.slab) m.heap g.valid.heap in
      elim (Option-cases (HashMap.get m.map k)) [
        | inl e ↦
            rw (e, replace)
              (Returns->>= (Pushed (t, l.vacant m.slab) m.heap) Post
                (Queue.push (t, l.vacant m.slab) m.heap) (λ r. ok (none, inserted k t v m r)) pushed
                (λ r p. (
                  ground (arith, entry-none m k e, g.entries k),
                  put-Stores k t v m f (inserted k t v m r) g
                      (inserted-Stores k t v m r g.valid e p),
                )))
        | inr (i, e) ↦
            let (s, t₀, v₀, o) = found m k i g.valid e in
            rw (e, replace)
              (Returns->>= (Pushed (t, l.vacant m.slab) m.heap) Post
                (Queue.push (t, l.vacant m.slab) m.heap)
                (λ r. replace (some i) (inserted k t v m r)) pushed
                (λ r p.
                  let here : l.get (l.insert m.slab (r.1, k, v)) i ≡ some (s, k, v₀) =
                    ground
                      (arith, l.get-insert m.slab (r.1, k, v) i, o.held, l.get-vacant m.slab) in
                  rw here (
                    Returns->>= (λ x. (x.0 ≡ (t₀, i)) × Removed s r.0 x.1) Post (Queue.remove s r.0)
                      (λ x. ok (some v₀, replaced k i t v m r x.1))
                      (remove-Removed s (t₀, i) r.0 p.heap
                        (ground (arith, p.values s, p.fresh, o.slot)))
                      (λ x q. (
                        ground (arith, entry-found m k i s t₀ v₀ o, g.entries k),
                        put-Stores k t v m f (replaced k i t v m r x.1) g
                            (replaced-Stores k t v m r i s t₀ v₀ x.1 g.valid o p q.1),
                      )))))
      ]
