-- ===== src/Heap/Queue.antt =====
-- `Heap` of chat/processor/heap.rs: the items, and an index from slots to positions.
use swindon.Prelude.{
  ℕ, zero, suc, ◌+◌, ◌-◌, ◌*◌, ◌/◌, not, List, [], ◌∷◌, ◌++◌, Option, none, some, length, nat_beq,
  if◌then◌else◌, option_map,
}
use swindon.Outcome.{Outcome, ok, panic, ◌>>=◌, expect}
use swindon.Heap.Slab.{Slabs, take, assign}
use swindon.Heap.Items.{nth, store, init}
use swindon.Heap.Order.{Ord}

module _ ⦃l : Slabs⦄ where
  pub record Heap (T : Type 0) : Type 0 where
    pub items : List (T × ℕ)
    pub index : l.Slab ℕ

abbrev pub parent : ℕ → ℕ
parent idx = (idx - 1) / 2

module _ ⦃l : Slabs⦄ {T : Type 0} ⦃o : Ord T⦄ where
  unfoldable pub new : Heap T
  new = record { items = []; index = l.new }

  -- Swaps two items, and writes where they are now: the body of both loops below their tests.
  unfoldable pub exchange : ℕ → ℕ → Heap T → Outcome (Heap T)
  unfolding assign
  exchange a b h = do
    x ← expect (nth h.items a)
    y ← expect (nth h.items b)
    index₁ ← assign h.index y.1 a
    index₂ ← assign index₁ x.1 b
    ok (record { items = store (store h.items a y) b x; index = index₂ })

  -- The `while` of `percolate_up`; the number of rounds is at most the index.
  unfoldable pub up_loop : ℕ → ℕ → Heap T → Outcome (Heap T)
  up_loop zero idx h = panic
  up_loop (suc fuel) zero h = ok h
  up_loop (suc fuel) idx h =
      let rise = exchange (parent idx) idx h >>= up_loop fuel (parent idx) in
      do
        x ← expect (nth h.items idx)
        y ← expect (nth h.items (parent idx))
        if not (o.lt x.0 y.0) then ok h else rise

  unfoldable pub percolate_up : ℕ → Heap T → Outcome (Heap T)
  unfolding up_loop
  percolate_up idx h = up_loop (suc idx) idx h

  -- The match on the two children: the one to swap with, if the loop goes on.
  unfoldable pub lower_child : T → ℕ → ℕ → Option (T × ℕ) → Option (T × ℕ) → Outcome (Option ℕ)
  lower_child x left right (some y) none = ok (if not (o.lt y.0 x) then none else some left)
  lower_child x left right (some y) (some z) = ok (
      if o.lt y.0 x
      then if o.lt z.0 y.0 then some right else some left
      else if o.lt z.0 x
      then some right
      else none)
  lower_child x left right none none = ok none
  lower_child x left right none (some z) = panic

  -- The `loop` of `percolate_down`; the index grows in each round.
  unfoldable pub down_loop : ℕ → ℕ → Heap T → Outcome (Heap T)
  unfolding lower_child
  down_loop zero idx h = panic
  down_loop (suc fuel) idx h =
      let left = 2 * idx + 1 in
      let right = 2 * idx + 2 in
      let sink_left = exchange idx left h >>= down_loop fuel left in
      let sink_right = exchange idx right h >>= down_loop fuel right in
      do
        x ← expect (nth h.items idx)
        child ← lower_child x.0 left right (nth h.items left) (nth h.items right)
        elim child [ none ↦ ok h | some m ↦ if nat_beq m left then sink_left else sink_right ]

  unfoldable pub percolate_down : ℕ → Heap T → Outcome (Heap T)
  unfolding down_loop
  percolate_down idx h = down_loop (suc (length h.items)) idx h

  -- The heap, and the slot of the new item.
  unfoldable pub push : T → Heap T → Outcome (Heap T × ℕ)
  unfolding percolate_up
  push t h =
      let len = length h.items in
      let slot = l.vacant h.index in
      do
        h' ←
            percolate_up len
              (record { items = h.items ++ (t, slot) ∷ []; index = l.insert h.index len })
        ok (h', slot)

  unfoldable pub peek : Heap T → Option T
  peek h = option_map (λ x. x.0) (nth h.items 0)

  -- The items after `swap_remove`.
  abbrev pub swap_remove : List (T × ℕ) → ℕ → T × ℕ → List (T × ℕ)
  swap_remove items idx last = store (init items) idx last

  -- `remove` below `swap_remove`: the item that moved is put in its place.
  unfoldable pub settle : ℕ → T → Heap T → Outcome (Heap T)
  settle idx item h = elim (nth h.items idx) [
    | none ↦ ok h
    | some moved ↦ do
      index ← assign h.index moved.1 idx
      let h' : Heap T = record { items = h.items; index = index }
      if o.lt moved.0 item then percolate_up idx h' else percolate_down idx h'
  ]

  unfoldable pub remove : ℕ → Heap T → Outcome (T × Heap T)
  unfolding take settle
  remove slot h = do
    (idx, index) ← take h.index slot
    item ← expect (nth h.items idx)
    last ← expect (nth h.items (length h.items - 1))
    h' ← settle idx item.0 (record { items = swap_remove h.items idx last; index = index })
    ok (item.0, h')

  unfoldable pub pop : Heap T → Outcome (Option T × Heap T)
  unfolding remove
  pop h = elim (nth h.items 0) [
    | none ↦ ok (none, h)
    | some first ↦ do (t, h') ← remove first.1 h; ok (some t, h')
  ]
