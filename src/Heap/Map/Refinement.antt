-- ===== src/Heap/Map/Refinement.antt =====
-- The operations of `HeapMap` as steps of a finite map from keys to times and values.
use swindon.Prelude.{ℕ, ◌≡◌, String, Option, none, option_map, List, [], ◌∷◌}
use swindon.Outcome.{Outcome, ok, ◌>>=◌, Returns, Returns->>=, Returns-imp}
use swindon.Timers.{later_of}
use swindon.Heap.Slab.{Slabs}
use swindon.Heap.Map
use swindon.Heap.Map.{HeapMap, new}
use swindon.Heap.Map.State.{Stores, new-Stores}
use swindon.Heap.Map.Entries.{put, changed, Shows, without}
use swindon.Heap.Map.Insertion.{insert-Stores}
use swindon.Heap.Map.Changes.{get_mut-Stores, update-Stores, update_if_smaller-Stores}
use swindon.Heap.Map.Taking.{Popped, pop-Stores}

module _ (V : Type 0) where
  abbrev pub Entries : Type 0
  Entries = String → Option (ℕ × V)

  -- A call that changes the map.
  pub data Call : Type 0 where
    insert : String → ℕ → V → Call
    get_mut : String → (V → V) → Call
    update : String → ℕ → Call
    update_if_smaller : String → ℕ → Call
    pop : Call

module _ {V : Type 0} where
  -- What a call may do to the entries; of several entries with the least time, `pop` takes any.
  pub data Step : Call V → Entries V → Entries V → Type 0 where
    inserted : (k : String) (t : ℕ) (v : V) (f : Entries V) → Step (insert k t v) f (put k t v f)
    written :
        (k : String) (c : V → V) (f : Entries V)
        → Step (get_mut k c) f (changed k (λ (t, v). (t, c v)) f)
    updated :
        (k : String) (t : ℕ) (f : Entries V) → Step (update k t) f (changed k (λ (d, v). (t, v)) f)
    raised :
        (k : String) (t : ℕ) (f : Entries V)
        → Step (update_if_smaller k t) f (changed k (λ (d, v). (later_of t d, v)) f)
    popped : (x : Option (String × ℕ × V)) (f : Entries V) → Shows f x → Step pop f (without x f)

  pub data Steps : List (Call V) → Entries V → Entries V → Type 0 where
    done : (f : Entries V) → Steps [] f f
    step :
        (c : Call V) (cs : List (Call V)) (f g h : Entries V)
        → Step c f g
        → Steps cs g h
        → Steps (c ∷ cs) f h

module _ ⦃l : Slabs⦄ {V : Type 0} where
  -- A call on the code's structure, the result dropped.
  unfoldable pub call : Call V → HeapMap V → Outcome (HeapMap V)
  call (insert k t v) m = do (old, m') ← Map.insert k t v m; ok m'
  call (get_mut k c) m = Map.get_mut k c m
  call (update k t) m = Map.update k t m
  call (update_if_smaller k t) m = Map.update_if_smaller k t m
  call pop m = do (top, m') ← Map.pop m; ok m'

  unfoldable pub calls : List (Call V) → HeapMap V → Outcome (HeapMap V)
  calls [] m = ok m
  calls (c ∷ cs) m = call c m >>= calls cs

  abbrev pub Refines : (Entries V → Type 0) → HeapMap V → Type 0
  Refines P m = (f : Entries V) × P f × Stores f m

  call-Step :
      (c : Call V) (m : HeapMap V) (f : Entries V)
      → Stores f m
      → Returns (Refines (Step c f)) (call c m)
  unfolding call
  call-Step (insert k t v) m f g =
      Returns->>= (λ r. Stores (put k t v f) r.1) (Refines (Step (insert k t v) f))
        (Map.insert k t v m) (λ r. ok r.1)
        (Returns-imp (λ r. (r.0 ≡ option_map (λ e. e.1) (f k)) × Stores (put k t v f) r.1)
          (λ r. Stores (put k t v f) r.1) (Map.insert k t v m) (λ r p. p.1)
          (insert-Stores k t v m f g))
        (λ r s. (put k t v f, inserted k t v f, s))
  call-Step (get_mut k c) m f g =
      Returns-imp (Stores (changed k (λ (t, v). (t, c v)) f)) (Refines (Step (get_mut k c) f))
        (Map.get_mut k c m) (λ m' s. (changed k (λ (t, v). (t, c v)) f, written k c f, s))
        (get_mut-Stores k c m f g)
  call-Step (update k t) m f g =
      Returns-imp (Stores (changed k (λ (d, v). (t, v)) f)) (Refines (Step (update k t) f))
        (Map.update k t m) (λ m' s. (changed k (λ (d, v). (t, v)) f, updated k t f, s))
        (update-Stores k t m f g)
  call-Step (update_if_smaller k t) m f g =
      Returns-imp (Stores (changed k (λ (d, v). (later_of t d, v)) f))
        (Refines (Step (update_if_smaller k t) f)) (Map.update_if_smaller k t m)
        (λ m' s. (changed k (λ (d, v). (later_of t d, v)) f, raised k t f, s))
        (update_if_smaller-Stores k t m f g)
  call-Step pop m f g =
      Returns->>= (Popped m f) (Refines (Step pop f)) (Map.pop m) (λ r. ok r.1) (pop-Stores m f g)
        (λ r p. (without r.0 f, popped r.0 f p.1, p.2))

  calls_from :
      (cs : List (Call V)) (m : HeapMap V) (f : Entries V)
      → Stores f m
      → Returns (Refines (Steps cs f)) (calls cs m)
  unfolding calls
  calls_from [] m f g = (f, done f, g)
  calls_from (c ∷ cs) m f g =
      Returns->>= (Refines (Step c f)) (Refines (Steps (c ∷ cs) f)) (call c m) (calls cs)
        (call-Step c m f g)
        (λ m' (f', s, g').
          Returns-imp (Refines (Steps cs f')) (Refines (Steps (c ∷ cs) f)) (calls cs m')
            (λ n (h, p, q). (h, step c cs f f' h s p, q)) (calls_from cs m' f' g'))

  -- Any calls on a new map return without a panic, and a finite map that starts empty can take the
  -- same steps to the entries that the structure then has.
  pub calls-Steps :
      (cs : List (Call V)) → Returns (Refines (Steps cs (λ _. none))) (calls cs (new {V = V}))
  calls-Steps cs = calls_from cs new (λ _. none) new-Stores
