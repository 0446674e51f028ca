-- ===== src/Ids/PubCid.antt =====
-- chat/cid.rs: connection ids, and their public form with the id of the server. How numbers are
-- printed and parsed is the standard library's.
use swindon.Prelude.{
  ℕ, ◌+◌, ◌%◌, ◌^◌, ◌<◌, ◌≡◌, refl, Bool, true, List, [], ◌∷◌, ◌++◌, Option, none, some, arith, leb,
  nat_beq, if◌then◌else◌, ◌&&◌,
}
use swindon.Intern.{all}
use swindon.Ids.RequestId

-- A decimal digit.
abbrev pub is_digit : ℕ → Bool
is_digit c = leb b'0' c && leb c b'9'

-- `Display` and `FromStr` of u64.
pub record Decimals : Type 0 where
  pub show : ℕ → List ℕ
  pub parse : List ℕ → Option ℕ
  pub parse-show : (n : ℕ) → n < 2 ^ 64 → parse (show n) ≡ some n
  pub all-show : (n : ℕ) → all is_digit (show n) ≡ true

-- The id, and the counter that the next call finds.
unfoldable pub new : ℕ → ℕ × ℕ
new counter = (counter, (counter + 1) % 2 ^ 64)

-- `src.rfind('-')`, and the two slices around it.
unfoldable pub rfind_dash : List ℕ → Option (List ℕ × List ℕ)
rfind_dash [] = none
rfind_dash (c ∷ src) =
    let rest = rfind_dash src in
    elim rest [
      | some (before, after) ↦ some (c ∷ before, after)
      | none ↦ if nat_beq c b'-' then some ([], src) else none
    ]

module _ ⦃d : Decimals⦄ where
  -- The id of the connection, and of the server.
  unfoldable pub from_str : List ℕ → Option (ℕ × List ℕ)
  from_str src = elim (rfind_dash src) [
    | none ↦ none
    | some (rid, cid) ↦ elim (RequestId.from_str rid) [
      | none ↦ none
      | some server ↦ elim (d.parse cid) [ none ↦ none | some n ↦ some (n, server) ]
    ]
  ]

  -- `format!("{}-{}", sid, cid)`
  unfoldable pub connection_id : List ℕ → ℕ → List ℕ
  connection_id sid cid = sid ++ (b'-' ∷ d.show cid)

rfind_dash-digits : (s : List ℕ) → all is_digit s ≡ true → rfind_dash s ≡ none
unfolding rfind_dash
rfind_dash-digits [] a = refl
rfind_dash-digits (c ∷ s) a = ground (arith, a, rfind_dash-digits s (ground (arith, a)))

rfind_dash-append :
    (sid cid : List ℕ)
    → all is_digit cid ≡ true
    → rfind_dash (sid ++ (b'-' ∷ cid)) ≡ some (sid, cid)
unfolding rfind_dash
rfind_dash-append [] cid a = ground (arith, rfind_dash-digits cid a)
rfind_dash-append (c ∷ sid) cid a = ground (arith, rfind_dash-append sid cid a)

module _ ⦃d : Decimals⦄ where
  -- The public id of a connection, whose number has 64 bits and whose server has an id that can be
  -- parsed, reads back as the connection and the server, also when the id of the server has dashes.
  pub from_str-connection_id :
      (sid : List ℕ) (cid : ℕ)
      → RequestId.from_str sid ≡ some sid
      → cid < 2 ^ 64
      → from_str (connection_id sid cid) ≡ some (cid, sid)
  unfolding from_str connection_id
  from_str-connection_id sid cid e l =
      rw (rfind_dash-append sid (d.show cid) (d.all-show cid), from_str, e, d.parse-show cid l) refl
