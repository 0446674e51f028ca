-- ===== src/Heap/Map/Entries.antt =====
-- What the operations of `HeapMap` are to do: changes of a finite map from keys to times and values.
use swindon.Prelude.{
  ℕ, ◌≡◌, ◌≤◌, String, Option, none, some, option_map, if◌then◌else◌, ◌==◌, string_eq,
}

module _ {V : Type 0} where
  abbrev pub put : String → ℕ → V → (String → Option (ℕ × V)) → String → Option (ℕ × V)
  put k t v f j = if k == j then some (t, v) else f j

  -- The entry of `k` under `c`; the others stay.
  abbrev pub changed :
      String → (ℕ × V → ℕ × V) → (String → Option (ℕ × V)) → String → Option (ℕ × V)
  changed k c f j = if k == j then option_map c (f j) else f j

  -- An entry with the least time of all.
  pub record IsTop (f : String → Option (ℕ × V)) (k : String) (t : ℕ) (v : V) : Type 0 where
    pub here : f k ≡ some (t, v)
    pub least : (j : String) (d : ℕ) (w : V) → f j ≡ some (d, w) → t ≤ d

  -- What `peek` may show.
  abbrev pub Shows : (String → Option (ℕ × V)) → Option (String × ℕ × V) → Type 0
  Shows f none = (k : String) → f k ≡ none
  Shows f (some (k, t, v)) = IsTop f k t v

  abbrev pub without : Option (String × ℕ × V) → (String → Option (ℕ × V)) → String → Option (ℕ × V)
  without none f j = f j
  without (some (k, t, v)) f j = if k == j then none else f j
