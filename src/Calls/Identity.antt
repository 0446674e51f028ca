-- ===== src/Calls/Identity.antt =====
-- `MetaWithExtra` of chat/message.rs: what a backend reads in the meta object of a call.
use swindon.Prelude.{
  ◌≡◌, refl, arith, String, [], ◌∷◌, ◌++◌, none, if◌then◌else◌, string_eq, is_some, true,
  Bool-cases, inl, inr,
}
use swindon.World.{World}
use swindon.Std.HashMap
use swindon.Std.HashMap.{HashMap}
use swindon.Calls.{Meta}
use swindon.Calls.Codec.{other_entries, meta_with_extra}

module _ ⦃w : World⦄ where
  get-append :
      (a b : HashMap String w.Json) (k : String)
      → HashMap.get (a ++ b) k
        ≡ (if is_some (HashMap.get a k) then HashMap.get a k else HashMap.get b k)
  unfolding HashMap.get
  get-append [] b k = refl
  get-append ((j, v) ∷ a) b k = ground (arith, get-append a b k)

  get-other_entries :
      (extra : HashMap String w.Json) (meta : Meta) (k : String)
      → HashMap.get (other_entries extra meta) k
        ≡ (if is_some (HashMap.get extra k) then none else HashMap.get meta k)
  unfolding other_entries HashMap.get
  get-other_entries extra [] k = ground arith
  get-other_entries extra ((j, v) ∷ meta) k =
      ground (arith, get-other_entries extra meta k, string_eq.beq_iff j k)

  append-IsDistinct :
      (rest a : HashMap String w.Json)
      → HashMap.IsDistinct a
      → HashMap.IsDistinct rest
      → ((k : String) → is_some (HashMap.get a k) ≡ true → HashMap.get rest k ≡ none)
      → HashMap.IsDistinct (a ++ rest)
  unfolding HashMap.get
  append-IsDistinct rest [] d e n = e
  append-IsDistinct rest ((j, v) ∷ a) d e n = (
    ground (arith, get-append a rest j, d.0, n j, string_eq.beq_iff j j),
    append-IsDistinct rest a d.1 e (λ k s. n k (ground (arith, s))),
  )

  other_entries-IsDistinct :
      (extra : HashMap String w.Json) (meta : Meta)
      → HashMap.IsDistinct meta
      → HashMap.IsDistinct (other_entries extra meta)
  unfolding other_entries
  other_entries-IsDistinct extra [] d = tt
  other_entries-IsDistinct extra ((j, v) ∷ meta) d =
      elim (Bool-cases (is_some (HashMap.get extra j))) [
        | inl b ↦ rw (b, other_entries) (other_entries-IsDistinct extra meta d.1)
        | inr b ↦
            rw (b, other_entries)
              (
                ground (arith, get-other_entries extra meta j, d.0),
                other_entries-IsDistinct extra meta d.1,
              )
      ]

  -- The object that is written names each key once, where the server's part and the client's do: a
  -- key that the server adds has the server's value, whatever the client sent under it, and any
  -- other key has the client's.
  pub get-meta_with_extra :
      (extra : HashMap String w.Json) (meta : Meta) (k : String)
      → HashMap.IsDistinct extra
      → HashMap.IsDistinct meta
      → HashMap.IsDistinct (meta_with_extra extra meta)
        × (HashMap.get (meta_with_extra extra meta) k
            ≡ (if is_some (HashMap.get extra k) then HashMap.get extra k else HashMap.get meta k))
  unfolding meta_with_extra
  get-meta_with_extra extra meta k d e = (
    append-IsDistinct (other_entries extra meta) extra d (other_entries-IsDistinct extra meta e)
        (λ j s. ground (arith, get-other_entries extra meta j, s)),
    ground (arith, get-append extra (other_entries extra meta) k, get-other_entries extra meta k),
  )
