-- ===== src/Examples/Deadlines.antt =====
-- An association list of deadlines, with a linear search for the least one, has the interface of
-- `HeapMap` (chat/processor/heap.rs).
use swindon.Prelude.{
  ℕ, ◌≤◌, ◌≡◌, refl, String, [], ◌∷◌, Option, none, some, ltb, if◌then◌else◌, string_eq, option_map,
  arith, length, unwrap_or, Option-cases, inl, inr,
}
use swindon.Std.HashMap.{
  HashMap, get, insert, remove, adjust, IsDistinct, get-insert, get-remove, get-adjust,
  insert-IsDistinct, remove-IsDistinct, length-remove, adjust-IsDistinct,
}
use swindon.Timers.{Timers, later_of}

module _ (V : Type 0) where
  abbrev pub Entries : Type 0
  Entries = HashMap String (ℕ × V)

  abbrev pub least : Entries → Option (String × ℕ × V)
  least [] = none
  least ((k, (t, v)) ∷ m) = elim (least m) [
    | none ↦ some (k, t, v)
    | some (j, d, x) ↦ if ltb d t then some (j, d, x) else some (k, t, v)
  ]

  pub least-none : (m : Entries) (k : String) → least m ≡ none → get m k ≡ none
  unfolding get
  least-none [] k e = refl
  least-none ((j, (t, v)) ∷ m) k e = ground (arith, e)

  pub least-entry :
      (m : Entries) (k : String) (t : ℕ) (v : V)
      → IsDistinct m
      → least m ≡ some (k, t, v)
      → get m k ≡ some (t, v)
  unfolding get
  least-entry [] k t v d e = ground (arith, e)
  least-entry ((j, (t', v')) ∷ m) k t v d e = elim (Option-cases (least m)) [
    | inl n ↦ ground (arith, e, n, string_eq.beq_iff j k)
    | inr ((i, s, x), n) ↦
        ground (arith, e, n, d.0, least-entry m i s x d.1 n, string_eq.beq_iff j k)
  ]

  pub least-least :
      (m : Entries) (k j : String) (t d : ℕ) (v x : V)
      → least m ≡ some (k, t, v)
      → get m j ≡ some (d, x)
      → t ≤ d
  unfolding get
  least-least [] k j t d v x e g = ground (arith, e)
  least-least ((i, (t', v')) ∷ m) k j t d v x e g = elim (Option-cases (least m)) [
    | inl n ↦ ground (arith, e, n, g, least-none m j n)
    | inr ((i', s, y), n) ↦ ground (arith, e, n, g, least-least m i' j s d y x n)
  ]

  abbrev pub Deadlines : Type 0
  Deadlines = (m : Entries) × IsDistinct m

  abbrev pub value : Option (ℕ × V) → Option V
  value o = option_map (λ e. e.1) o

  abbrev pub time : Option (ℕ × V) → Option ℕ
  time o = option_map (λ e. e.0) o

  abbrev pub without : Deadlines → Option (String × ℕ × V) → Deadlines
  without m none = m
  without (m, d) (some (k, t, v)) = (remove m k, remove-IsDistinct m k d)

  instance unfoldable pub deadlines : Timers V
  unfolding get
  deadlines = record {
    Map = Deadlines;
    new = ([], tt);
    get = λ (m, d) k. value (get m k);
    insert = λ (m, d) k t v. (insert m k (t, v), insert-IsDistinct m k (t, v) d);
    adjust = λ (m, d) k f.
        (adjust m k (λ (t, v). (t, f v)), adjust-IsDistinct m k (λ (t, v). (t, f v)) d);
    update =
        λ (m, d) k t. (adjust m k (λ (s, v). (t, v)), adjust-IsDistinct m k (λ (s, v). (t, v)) d);
    update_if_smaller = λ (m, d) k t. (
      adjust m k (λ (s, v). (later_of t s, v)),
      adjust-IsDistinct m k (λ (s, v). (later_of t s, v)) d,
    );
    peek = λ (m, d). least m;
    pop = λ (m, d). (least m, without (m, d) (least m));
    len = λ (m, d). length m;
    deadline = λ (m, d) k. time (get m k);
    get-new = λ k. refl;
    get-insert = λ (m, d) k j t v. ground (arith, get-insert m k j (t, v));
    deadline-insert = λ (m, d) k j t v. ground (arith, get-insert m k j (t, v));
    get-adjust = λ (m, d) k j f. ground (arith, get-adjust m k j (λ (t, v). (t, f v)));
    deadline-adjust = λ (m, d) k j f. ground (arith, get-adjust m k j (λ (t, v). (t, f v)));
    get-update = λ (m, d) k j t. ground (arith, get-adjust m k j (λ (s, v). (t, v)));
    deadline-update = λ (m, d) k j t. ground (arith, get-adjust m k j (λ (s, v). (t, v)));
    get-update_if_smaller =
        λ (m, d) k j t. ground (arith, get-adjust m k j (λ (s, v). (later_of t s, v)));
    deadline-update_if_smaller =
        λ (m, d) k j t. ground (arith, get-adjust m k j (λ (s, v). (later_of t s, v)));
    get-deadline = λ (m, d) k. ground arith;
    peek_entry = λ (m, d) k t v e. ground (arith, least-entry m k t v d e);
    peek_least = λ (m, d) k j t s v e g.
        ground (arith, g, least-least m k j t s v (unwrap_or (value (get m j)) v) e);
    peek_none = λ (m, d) k e. ground (arith, least-none m k e);
    pop_result = λ (m, d). refl;
    get-pop = λ (m, d) k j t v e. ground (arith, e, get-remove m k j);
    deadline-pop = λ (m, d) k j t v e. ground (arith, e, get-remove m k j);
    len-pop =
        λ (m, d) k t v e. ground (arith, e, length-remove m k (t, v) d (least-entry m k t v d e));
  }
