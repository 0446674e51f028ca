-- ===== src/Heap/Map/State.antt =====
-- What a `HeapMap` stores under a key, and how its three parts agree.
use swindon.Prelude.{
  ℕ, ◌≡◌, ◌↔◌, String, Option, none, some, refl, arith, option_map, string_eq, nat_eq, Option-cases,
  inl, inr,
}
use swindon.Std.HashMap
use swindon.Heap.Slab.{Slabs}
use swindon.Heap.Order.{pair_ord}
use swindon.Heap.Places.{at}
use swindon.Heap.Contract.{IsHeap, new-IsHeap}
use swindon.Heap.Queue
use swindon.Heap.Map.{HeapMap, new}

module _ ⦃l : Slabs⦄ {V : Type 0} where
  -- The key of an entry of the slab.
  abbrev pub key_at : HeapMap V → ℕ → Option String
  key_at m i = option_map (λ e. e.1) (l.get m.slab i)

  -- The heap's slot in an entry of the slab.
  abbrev pub slot_at : HeapMap V → ℕ → Option ℕ
  slot_at m i = option_map (λ e. e.0) (l.get m.slab i)

  -- The entry of the slab that a slot of the heap is for.
  abbrev pub index_at : HeapMap V → ℕ → Option ℕ
  index_at m s = option_map (λ x. x.1) (at m.heap s)

  -- The three parts agree.
  pub record IsMap (m : HeapMap V) : Type 0 where
    pub heap : IsHeap m.heap
    pub distinct : HashMap.IsDistinct m.map
    pub known : (k : String) (i : ℕ) → (HashMap.get m.map k ≡ some i) ↔ (key_at m i ≡ some k)
    pub timed : (s i : ℕ) → (index_at m s ≡ some i) ↔ (slot_at m i ≡ some s)

  -- The time and the value of an entry of the slab.
  abbrev pub timed_value : HeapMap V → ℕ × String × V → Option (ℕ × V)
  timed_value m e = option_map (λ x. (x.0, e.2)) (at m.heap e.0)

  abbrev pub entry_at : HeapMap V → ℕ → Option (ℕ × V)
  entry_at m i = elim (l.get m.slab i) [ none ↦ none | some e ↦ timed_value m e ]

  -- The time and the value of a key.
  unfoldable pub entry : HeapMap V → String → Option (ℕ × V)
  entry m k = elim (HashMap.get m.map k) [ none ↦ none | some i ↦ entry_at m i ]

  -- The map is in order, and stores what `f` says.
  pub record Stores (f : String → Option (ℕ × V)) (m : HeapMap V) : Type 0 where
    pub valid : IsMap m
    pub entries : (k : String) → entry m k ≡ f k

  pub new-Stores : Stores (λ _. none) (new {V = V})
  unfolding new entry HashMap.get Queue.new
  new-Stores = record {
    valid = record {
      heap = new-IsHeap;
      distinct = tt;
      known = λ k i. ground (arith, l.get-new {A = ℕ × String × V} i);
      timed = λ s i. ground (arith, l.get-new {A = ℕ × String × V} i, l.get-new {A = ℕ} s);
    };
    entries = λ k. refl;
  }

  -- The old entry of the key, and where it stands.
  pub record Found (m : HeapMap V) (k : String) (i s t : ℕ) (v : V) : Type 0 where
    pub index : HashMap.get m.map k ≡ some i
    pub held : l.get m.slab i ≡ some (s, k, v)
    pub slot : at m.heap s ≡ some (t, i)

  pub found :
      (m : HeapMap V) (k : String) (i : ℕ)
      → IsMap m
      → HashMap.get m.map k ≡ some i
      → (s : ℕ) × (t : ℕ) × (v : V) × Found m k i s t v
  found m k i g e = elim (Option-cases (l.get m.slab i)) [
    | inl p ↦ absurd (ground (arith, e, p, g.known k i))
    | inr ((s, j, v), p) ↦ elim (Option-cases (at m.heap s)) [
      | inl q ↦ absurd (ground (arith, p, q, g.timed s i))
      | inr ((t, i'), q) ↦ (
        s,
        t,
        v,
        record {
          index = e;
          held = ground (arith, p, e, g.known k i);
          slot = ground (arith, p, q, g.timed s i);
        },
      )
    ]
  ]

  pub entry-none : (m : HeapMap V) (k : String) → HashMap.get m.map k ≡ none → entry m k ≡ none
  unfolding entry
  entry-none m k e = ground (arith, e)

  pub entry-found :
      (m : HeapMap V) (k : String) (i s t : ℕ) (v : V) → Found m k i s t v → entry m k ≡ some (t, v)
  unfolding entry
  entry-found m k i s t v o = ground (arith, o.index, o.held, o.slot)
