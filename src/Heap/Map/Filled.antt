-- ===== src/Heap/Map/Filled.antt =====
-- `HeapMap` has the interface `Timers` of the session pool: each operation is what the code's call
-- returns.
use swindon.Prelude.{
  ℕ, suc, ◌≡◌, ◌∙◌, sym, ap, String, Option, none, some, refl, arith, option_map, if◌then◌else◌,
  ◌==◌, string_eq, subst, Option-cases, inl, inr,
}
use swindon.Outcome.{Outcome, ok, panic, Returns, result, result-ok}
use swindon.Timers.{Timers, later_of}
use swindon.Heap.Slab.{Slabs}
use swindon.Heap.Map
use swindon.Heap.Map.{HeapMap}
use swindon.Heap.Map.Entries.{put, changed, IsTop, Shows, without}
use swindon.Heap.Map.State.{IsMap, Stores, entry, new-Stores}
use swindon.Heap.Map.Insertion.{insert-Stores}
use swindon.Heap.Map.Changes.{get-Stores, get_mut-Stores, update-Stores, update_if_smaller-Stores}
use swindon.Heap.Map.Taking.{peek-Shows, Popped, pop-Stores}

module _ ⦃l : Slabs⦄ (V : Type 0) where
  abbrev pub Valid : Type 0
  Valid = (m : HeapMap V) × IsMap m

module _ ⦃l : Slabs⦄ {V : Type 0} where
  abbrev entries : Valid V → String → Option (ℕ × V)
  entries m = entry m.0

  stores : (m : Valid V) → Stores (entries m) m.0
  stores (m, g) = record { valid = g; entries = λ k. refl }

  -- A call that changes the map as `f` says.
  abbrev changing :
      (f : String → Option (ℕ × V)) (o : Outcome (HeapMap V)) → Returns (Stores f) o → Valid V
  changing f o r = let (m, s) = result (Stores f) o r in (m, s.valid)

  entries-changing :
      (f : String → Option (ℕ × V)) (o : Outcome (HeapMap V)) (r : Returns (Stores f) o)
      (k : String)
      → entries (changing f o r) k ≡ f k
  entries-changing f (ok m) r k = r.entries k
  entries-changing f panic r k = absurd r

  abbrev Inserted : String → ℕ → V → Valid V → Option V × HeapMap V → Type 0
  Inserted k t v m r =
      (r.0 ≡ option_map (λ e. e.1) (entries m k)) × Stores (put k t v (entries m)) r.1

  abbrev insert : Valid V → String → ℕ → V → Valid V
  insert m k t v =
      let (r, (e, s)) =
        result (Inserted k t v m) (Map.insert k t v m.0)
          (insert-Stores k t v m.0 (entries m) (stores m)) in
      (r.1, s.valid)

  entries-insert :
      (m : Valid V) (k : String) (t : ℕ) (v : V) (j : String)
      → entries (insert m k t v) j ≡ put k t v (entries m) j
  entries-insert m k t v j =
      let r =
        result (Inserted k t v m) (Map.insert k t v m.0)
          (insert-Stores k t v m.0 (entries m) (stores m)) in
      r.1.1.entries j

  abbrev popping :
      (m : Valid V) → (r : Option (String × ℕ × V) × HeapMap V) × Popped m.0 (entries m) r
  popping m = result (Popped m.0 (entries m)) (Map.pop m.0) (pop-Stores m.0 (entries m) (stores m))

  abbrev peeking : (m : Valid V) → (x : Option (String × ℕ × V)) × Shows (entries m) x
  peeking m = result (Shows (entries m)) (Map.peek m.0) (peek-Shows m.0 (entries m) (stores m))

  popping-peeking : (m : Valid V) → (popping m).0.0 ≡ (peeking m).0
  popping-peeking m = sym (
      result-ok (Shows (entries m)) (Map.peek m.0) (peek-Shows m.0 (entries m) (stores m))
        (popping m).0.0 (popping m).1.0)

  top :
      (m : Valid V) (k : String) (t : ℕ) (v : V)
      → (peeking m).0 ≡ some (k, t, v)
      → IsTop (entries m) k t v
  top m k t v e = subst (Shows (entries m)) e (peeking m).1

  abbrev pop : Valid V → Option (String × ℕ × V) × Valid V
  pop m = let (r, p) = popping m in (r.0, (r.1, p.2.valid))

  entries-pop :
      (m : Valid V) (k : String) (t : ℕ) (v : V) (j : String)
      → (peeking m).0 ≡ some (k, t, v)
      → entries (pop m).1 j ≡ (if k == j then none else entries m j)
  entries-pop m k t v j e =
      (popping m).1.2.entries j ∙ ap (λ x. without x (entries m) j) (popping-peeking m ∙ e)

  pop-len :
      (m : Valid V) (k : String) (t : ℕ) (v : V)
      → (peeking m).0 ≡ some (k, t, v)
      → suc (Map.len (pop m).1.0) ≡ Map.len m.0
  pop-len m k t v e = ground (arith, (popping m).1.3, popping-peeking m, e)

  abbrev getting :
      (m : Valid V) (k : String) → (x : Option V) × (x ≡ option_map (λ e. e.1) (entries m k))
  getting m k =
      result (λ x. x ≡ option_map (λ e. e.1) (entries m k)) (Map.get k m.0)
        (subst (Returns (λ x. x ≡ option_map (λ e. e.1) (entries m k)))
          (sym (get-Stores k m.0 (entries m) (stores m))) refl)

  abbrev adjust_entries : Valid V → String → (V → V) → String → Option (ℕ × V)
  adjust_entries m k c = changed k (λ (t, v). (t, c v)) (entries m)

  abbrev adjust : Valid V → String → (V → V) → Valid V
  adjust m k c =
      changing (adjust_entries m k c) (Map.get_mut k c m.0)
        (get_mut-Stores k c m.0 (entries m) (stores m))

  entries-adjust :
      (m : Valid V) (k : String) (c : V → V) (j : String)
      → entries (adjust m k c) j ≡ adjust_entries m k c j
  entries-adjust m k c =
      entries-changing (adjust_entries m k c) (Map.get_mut k c m.0)
        (get_mut-Stores k c m.0 (entries m) (stores m))

  abbrev update_entries : Valid V → String → ℕ → String → Option (ℕ × V)
  update_entries m k t = changed k (λ (d, v). (t, v)) (entries m)

  abbrev update : Valid V → String → ℕ → Valid V
  update m k t =
      changing (update_entries m k t) (Map.update k t m.0)
        (update-Stores k t m.0 (entries m) (stores m))

  entries-update :
      (m : Valid V) (k : String) (t : ℕ) (j : String)
      → entries (update m k t) j ≡ update_entries m k t j
  entries-update m k t =
      entries-changing (update_entries m k t) (Map.update k t m.0)
        (update-Stores k t m.0 (entries m) (stores m))

  abbrev raise_entries : Valid V → String → ℕ → String → Option (ℕ × V)
  raise_entries m k t = changed k (λ (d, v). (later_of t d, v)) (entries m)

  abbrev raise : Valid V → String → ℕ → Valid V
  raise m k t =
      changing (raise_entries m k t) (Map.update_if_smaller k t m.0)
        (update_if_smaller-Stores k t m.0 (entries m) (stores m))

  entries-raise :
      (m : Valid V) (k : String) (t : ℕ) (j : String)
      → entries (raise m k t) j ≡ raise_entries m k t j
  entries-raise m k t =
      entries-changing (raise_entries m k t) (Map.update_if_smaller k t m.0)
        (update_if_smaller-Stores k t m.0 (entries m) (stores m))

  instance pub filled : Timers V
  filled = record {
    Map = Valid V;
    new = (Map.new, new-Stores.valid);
    get = λ m k. (getting m k).0;
    insert = insert;
    adjust = adjust;
    update = update;
    update_if_smaller = raise;
    peek = λ m. (peeking m).0;
    pop = pop;
    len = λ m. Map.len m.0;
    deadline = λ m k. option_map (λ e. e.0) (entries m k);
    get-new = λ k.
        (getting (Map.new, new-Stores.valid) k).1
        ∙ ap (option_map (λ e. e.1)) (new-Stores.entries k);
    get-insert = λ m k j t v.
        ground (arith, (getting m j).1, (getting (insert m k t v) j).1, entries-insert m k t v j);
    deadline-insert = λ m k j t v. ground (arith, entries-insert m k t v j);
    get-adjust = λ m k j f.
        ground (arith, (getting m j).1, (getting (adjust m k f) j).1, entries-adjust m k f j);
    deadline-adjust = λ m k j f. ground (arith, entries-adjust m k f j);
    get-update = λ m k j t.
        ground (arith, (getting m j).1, (getting (update m k t) j).1, entries-update m k t j);
    deadline-update = λ m k j t. ground (arith, entries-update m k t j);
    get-update_if_smaller = λ m k j t.
        ground (arith, (getting m j).1, (getting (raise m k t) j).1, entries-raise m k t j);
    deadline-update_if_smaller = λ m k j t. ground (arith, entries-raise m k t j);
    get-deadline = λ m k. ground (arith, (getting m k).1);
    peek_entry = λ m k t v e. ground (arith, (getting m k).1, (top m k t v e).here);
    peek_least = λ m k j t d v e g. elim (Option-cases (entries m j)) [
      | inl n ↦ absurd (ground (arith, n, g))
      | inr ((d', w), n) ↦ ground (arith, n, g, (top m k t v e).least j d' w n)
    ];
    peek_none =
        λ m k e. ground (arith, (getting m k).1, subst (Shows (entries m)) e (peeking m).1 k);
    pop_result = popping-peeking;
    get-pop = λ m k j t v e.
        ground (arith, (getting m j).1, (getting (pop m).1 j).1, entries-pop m k t v j e);
    deadline-pop = λ m k j t v e. ground (arith, entries-pop m k t v j e);
    len-pop = pop-len;
  }
