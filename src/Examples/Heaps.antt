-- ===== src/Examples/Heaps.antt =====
-- Runs of the heap and of the map with deadlines.
use swindon.Prelude.{ℕ, ◌+◌, ◌≡◌, refl, List, [], ◌∷◌, none, some}
use swindon.Outcome.{Returns}
use swindon.Heap.Order.{pair_ord}
use swindon.Heap.Queue.{Heap, new, push, peek, remove, exchange}
use swindon.Heap.Places.{at}
use swindon.Heap.Contract.{IsHeap, Pushed, Least, new-IsHeap, push-Pushed, peek-Least}
use swindon.Heap.Cutting.{Removed}
use swindon.Heap.Removal.{remove-Removed, pop-Removed}
use swindon.Heap.Map.Refinement.{
  Call, pop, insert, get_mut, update, update_if_smaller, calls, calls-Steps, Refines, Steps,
}
use swindon.Heap.Map
use swindon.Heap.Queue
use swindon.Examples.Slots.{slots}

abbrev one : Heap (ℕ × ℕ)
one = record { items = ((5, 3), 0) ∷ []; index = some 0 ∷ [] }

abbrev two : Heap (ℕ × ℕ)
two = record { items = ((5, 3), 0) ∷ ((7, 4), 1) ∷ []; index = some 0 ∷ some 1 ∷ [] }

-- Three values, the least one pushed last.
abbrev three : Heap (ℕ × ℕ)
three = record {
  items = ((1, 9), 2) ∷ ((7, 4), 1) ∷ ((5, 3), 0) ∷ [];
  index = some 2 ∷ some 1 ∷ some 0 ∷ [];
}

two-IsHeap : IsHeap two
unfolding push new exchange
two-IsHeap =
    let a : IsHeap one = (push-Pushed (5, 3) new new-IsHeap).heap in (push-Pushed (7, 4) one a).heap

three-IsHeap : IsHeap three
unfolding push new exchange
three-IsHeap = (push-Pushed (1, 9) two two-IsHeap).heap

push-Pushed_example : Returns (Pushed (1, 9) two) (push (1, 9) two)
push-Pushed_example = push-Pushed (1, 9) two two-IsHeap

peek-Least_example : Least three (1, 9)
unfolding peek
peek-Least_example = peek-Least three (1, 9) three-IsHeap refl

remove-Removed_example : Returns (λ r. (r.0 ≡ (5, 3)) × Removed 0 three r.1) (remove 0 three)
remove-Removed_example = remove-Removed 0 (5, 3) three three-IsHeap refl

pop-Removed_example :
    Returns
      (λ r.
        (r.0 ≡ some (1, 9)) × (slot : ℕ) × (at three slot ≡ some (1, 9)) × Removed slot three r.1)
      (Queue.pop three)
unfolding peek
pop-Removed_example = pop-Removed (1, 9) three three-IsHeap refl

abbrev a_day : List (Call ℕ)
a_day =
    insert "a" 10 1
    ∷ insert "b" 20 2
    ∷ update_if_smaller "a" 15
    ∷ insert "b" 5 3
    ∷ get_mut "b" (λ v. v + 1)
    ∷ update "a" 7
    ∷ pop
    ∷ []

calls-Steps_example : Returns (Refines (Steps a_day (λ _. none))) (calls a_day Map.new)
calls-Steps_example = calls-Steps a_day
