-- ===== src/Heap/Map.antt =====
-- `HeapMap` of chat/processor/heap.rs, with string keys: a heap of times, a map from keys to
-- places in a slab, and the slab of what belongs to a key. The heap holds (time, slab index).
pub mod Entries
pub mod State
pub mod Insertion
pub mod Changes
pub mod Taking
pub mod Refinement
pub mod Filled
use swindon.Prelude.{
  ℕ, String, Bool, [], Option, none, some, if◌then◌else◌, string_eq, is_some, length,
}
use swindon.Std.HashMap
use swindon.Std.HashMap.{HashMap}
use swindon.Outcome.{Outcome, ok, panic, ◌>>=◌, expect}
use swindon.Timers.{later_of}
use swindon.Heap.Slab.{Slabs, take}
use swindon.Heap.Order.{pair_ord}
use swindon.Heap.Queue
use swindon.Heap.Queue.{Heap}

module _ ⦃l : Slabs⦄ (V : Type 0) where
  pub record HeapMap : Type 0 where
    pub heap : Heap (ℕ × ℕ)
    pub map : HashMap String ℕ
    -- the heap's slot, the key and the value
    pub slab : l.Slab (ℕ × String × V)

module _ ⦃l : Slabs⦄ {V : Type 0} where
  unfoldable pub new : HeapMap V
  new = record { heap = Queue.new; map = []; slab = l.new }

  -- The end of `insert`: the entry that had the key before goes away.
  unfoldable pub replace : Option ℕ → HeapMap V → Outcome (Option V × HeapMap V)
  unfolding take
  replace none m = ok (none, m)
  replace (some old_index) m = do
    (old, slab) ← take m.slab old_index
    (time, heap) ← Queue.remove old.0 m.heap
    ok (some old.2, record { heap = heap; map = m.map; slab = slab })

  unfoldable pub insert : String → ℕ → V → HeapMap V → Outcome (Option V × HeapMap V)
  unfolding replace
  insert key timestamp value m =
      let index = l.vacant m.slab in
      do
        (heap, slot) ← Queue.push (timestamp, index) m.heap
        replace (HashMap.get m.map key) (record {
          heap = heap;
          map = HashMap.insert m.map key index;
          slab = l.insert m.slab (slot, key, value);
        })

  unfoldable pub get : String → HeapMap V → Outcome (Option V)
  get k m = elim (HashMap.get m.map k) [
    | none ↦ ok none
    | some index ↦ do entry ← expect (l.get m.slab index); ok (some entry.2)
  ]

  abbrev pub contains_key : String → HeapMap V → Bool
  contains_key k m = HashMap.contains_key m.map k

  -- `f` applied to what `get_mut` refers to.
  unfoldable pub get_mut : String → (V → V) → HeapMap V → Outcome (HeapMap V)
  get_mut k f m = elim (HashMap.get m.map k) [
    | none ↦ ok m
    | some index ↦ do
      entry ← expect (l.get m.slab index)
      ok (record {
        heap = m.heap;
        map = m.map;
        slab = l.write m.slab index (entry.0, entry.1, f entry.2);
      })
  ]

  -- The closure in `update` and `update_if_smaller`, with the new time as a function of the old.
  unfoldable pub retime : String → (ℕ → ℕ) → ℕ → HeapMap V → Outcome (HeapMap V)
  unfolding take
  retime k time entry_index m = do
    (entry, slab) ← take m.slab entry_index
    (old, heap) ← Queue.remove entry.0 m.heap
    (heap', slot) ← Queue.push (time old.0, l.vacant slab) heap
    ok (record {
      heap = heap';
      map = HashMap.adjust m.map k (λ _. l.vacant slab);
      slab = l.insert slab (slot, entry.1, entry.2);
    })

  unfoldable pub update : String → ℕ → HeapMap V → Outcome (HeapMap V)
  update k timestamp m = elim (HashMap.get m.map k) [
    | none ↦ ok m
    | some entry_index ↦ retime k (λ _. timestamp) entry_index m
  ]

  unfoldable pub update_if_smaller : String → ℕ → HeapMap V → Outcome (HeapMap V)
  update_if_smaller k timestamp m = elim (HashMap.get m.map k) [
    | none ↦ ok m
    | some entry_index ↦ retime k (later_of timestamp) entry_index m
  ]

  unfoldable pub peek : HeapMap V → Outcome (Option (String × ℕ × V))
  peek m = elim (Queue.peek m.heap) [
    | none ↦ ok none
    | some top ↦ do entry ← expect (l.get m.slab top.1); ok (some (entry.1, top.0, entry.2))
  ]

  -- The closure in `pop`.
  unfoldable pub taken : Option (ℕ × ℕ) → HeapMap V → Outcome (Option (String × ℕ × V) × HeapMap V)
  unfolding take
  taken none m = ok (none, m)
  taken (some top) m = do
    (entry, slab) ← take m.slab top.1
    index ← expect (HashMap.get m.map entry.1)
    ok (
      some (entry.1, top.0, entry.2),
      record { heap = m.heap; map = HashMap.remove m.map entry.1; slab = slab },
    )

  unfoldable pub pop : HeapMap V → Outcome (Option (String × ℕ × V) × HeapMap V)
  unfolding taken
  pop m = do
    (top, heap) ← Queue.pop m.heap
    taken top (record { heap = heap; map = m.map; slab = m.slab })

  abbrev pub len : HeapMap V → ℕ
  len m = length m.map
