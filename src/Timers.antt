-- ===== src/Timers.antt =====
-- What a client of `HeapMap` (chat/processor/heap.rs) with string keys relies on: a map whose
-- entries have deadlines, seen through `get` and `deadline`.
use swindon.Prelude.{
  ℕ, suc, ◌≤◌, ◌≡◌, ◌==◌, String, Option, none, some, ltb, if◌then◌else◌, string_eq, is_some,
  option_map,
}

-- `max`
abbrev pub later_of : ℕ → ℕ → ℕ
later_of a b = if ltb a b then b else a

pub record Timers (V : Type 0) : Type 1 where
  pub Map : Type 0
  pub new : Map
  pub get : Map → String → Option V
  pub insert : Map → String → ℕ → V → Map
  -- a write through `get_mut`
  pub adjust : Map → String → (V → V) → Map
  pub update : Map → String → ℕ → Map
  pub update_if_smaller : Map → String → ℕ → Map
  pub peek : Map → Option (String × ℕ × V)
  pub pop : Map → Option (String × ℕ × V) × Map
  pub len : Map → ℕ
  -- the time stored with a key
  pub deadline : Map → String → Option ℕ
  pub get-new : (k : String) → get new k ≡ none
  pub get-insert :
      (m : Map) (k j : String) (t : ℕ) (v : V)
      → get (insert m k t v) j ≡ (if k == j then some v else get m j)
  pub deadline-insert :
      (m : Map) (k j : String) (t : ℕ) (v : V)
      → deadline (insert m k t v) j ≡ (if k == j then some t else deadline m j)
  pub get-adjust :
      (m : Map) (k j : String) (f : V → V)
      → get (adjust m k f) j ≡ (if k == j then option_map f (get m j) else get m j)
  pub deadline-adjust :
      (m : Map) (k j : String) (f : V → V) → deadline (adjust m k f) j ≡ deadline m j
  pub get-update : (m : Map) (k j : String) (t : ℕ) → get (update m k t) j ≡ get m j
  pub deadline-update :
      (m : Map) (k j : String) (t : ℕ)
      → deadline (update m k t) j
        ≡ (if k == j then option_map (λ _. t) (deadline m j) else deadline m j)
  pub get-update_if_smaller :
      (m : Map) (k j : String) (t : ℕ) → get (update_if_smaller m k t) j ≡ get m j
  pub deadline-update_if_smaller :
      (m : Map) (k j : String) (t : ℕ)
      → deadline (update_if_smaller m k t) j
        ≡ (if k == j then option_map (later_of t) (deadline m j) else deadline m j)
  pub get-deadline : (m : Map) (k : String) → is_some (get m k) ≡ is_some (deadline m k)
  pub peek_entry :
      (m : Map) (k : String) (t : ℕ) (v : V)
      → peek m ≡ some (k, t, v)
      → (get m k ≡ some v) × (deadline m k ≡ some t)
  -- the entry on top has the least deadline
  pub peek_least :
      (m : Map) (k j : String) (t d : ℕ) (v : V)
      → peek m ≡ some (k, t, v)
      → deadline m j ≡ some d
      → t ≤ d
  pub peek_none : (m : Map) (k : String) → peek m ≡ none → get m k ≡ none
  pub pop_result : (m : Map) → (pop m).0 ≡ peek m
  pub get-pop :
      (m : Map) (k j : String) (t : ℕ) (v : V)
      → peek m ≡ some (k, t, v)
      → get (pop m).1 j ≡ (if k == j then none else get m j)
  pub deadline-pop :
      (m : Map) (k j : String) (t : ℕ) (v : V)
      → peek m ≡ some (k, t, v)
      → deadline (pop m).1 j ≡ (if k == j then none else deadline m j)
  pub len-pop :
      (m : Map) (k : String) (t : ℕ) (v : V) → peek m ≡ some (k, t, v) → suc (len (pop m).1) ≡ len m
