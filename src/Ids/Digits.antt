-- ===== src/Ids/Digits.antt =====
-- The digits of base64: three bytes are four digits of six bits.
use swindon.Prelude.{
  ℕ, zero, suc, ◌+◌, ◌-◌, ◌*◌, ◌/◌, ◌%◌, ◌^◌, ◌<◌, ◌≡◌, refl, Bool, true, false, ◌&&◌, List, Option,
  none, some, arith, ltb, leb, nat_beq, if◌then◌else◌, subst, Bool-cases, inl, inr,
}
use swindon.Intern.{codes}
use swindon.Heap.Items.{nth}

-- `CHARS` of request_id.rs, for urls.
abbrev pub url_chars : List ℕ
url_chars = codes "ABCDEFGHIJKLMNOPQRSTUVWXYZabcdefghijklmnopqrstuvwxyz0123456789-_"

-- `STANDARD_CHARS` of base64.rs.
abbrev pub standard_chars : List ℕ
standard_chars = codes "ABCDEFGHIJKLMNOPQRSTUVWXYZabcdefghijklmnopqrstuvwxyz0123456789+/"

-- `(n >> k) & 63`
abbrev pub digit : ℕ → ℕ → ℕ
digit n k = n / 2 ^ k % 64

-- `src[0] << 16 | src[1] << 8 | src[2]`, of bytes.
abbrev pub joined : ℕ → ℕ → ℕ → ℕ
joined a b c = a * 2 ^ 16 + b * 2 ^ 8 + c

-- What the two tables say, as a formula: the last two digits are arguments.
abbrev pub char_of : ℕ → ℕ → ℕ → ℕ
char_of x y k =
    if ltb k 26
    then b'A' + k
    else if ltb k 52
    then b'a' + (k - 26)
    else if ltb k 62
    then b'0' + (k - 52)
    else if nat_beq k 62
    then x
    else y

-- The digit that a character stands for.
abbrev pub value_of : ℕ → ℕ → ℕ → ℕ
value_of x y c =
    if leb b'A' c && leb c b'Z'
    then c - b'A'
    else if leb b'a' c && leb c b'z'
    then c - b'a' + 26
    else if leb b'0' c && leb c b'9'
    then c - b'0' + 52
    else if nat_beq c x
    then 62
    else 63

module _ (f : ℕ → ℕ) where
  abbrev holds : Option ℕ → ℕ → Bool
  holds none k = false
  holds (some c) k = nat_beq c (f k)

  abbrev table_holds : List ℕ → ℕ → Bool
  table_holds chars zero = true
  table_holds chars (suc n) = holds (nth chars n) n && table_holds chars n

  holds-some : (o : Option ℕ) (k : ℕ) → holds o k ≡ true → o ≡ some (f k)
  holds-some none k h = ground (arith, h)
  holds-some (some c) k h = ground (arith, h)

  nth-table :
      (chars : List ℕ) (n k : ℕ) → table_holds chars n ≡ true → k < n → nth chars k ≡ some (f k)
  nth-table chars zero k h l = absurd (omega (arith, l))
  nth-table chars (suc n) k h l = elim (Bool-cases (nat_beq k n)) [
    | inl e ↦
        subst (λ j. nth chars j ≡ some (f j)) (ground (arith, e))
          (holds-some (nth chars n) n (ground (arith, h)))
    | inr e ↦ nth-table chars n k (ground (arith, h)) (ground (arith, e, l))
  ]

pub nth-url_chars : (k : ℕ) → k < 64 → nth url_chars k ≡ some (char_of b'-' b'_' k)
nth-url_chars k l = nth-table (char_of b'-' b'_') url_chars 64 k refl l

pub nth-standard_chars : (k : ℕ) → k < 64 → nth standard_chars k ≡ some (char_of b'+' b'/' k)
nth-standard_chars k l = nth-table (char_of b'+' b'/') standard_chars 64 k refl l

pub value_of-url : (k : ℕ) → k < 64 → value_of b'-' b'_' (char_of b'-' b'_' k) ≡ k
value_of-url k l = ground (arith, l)

pub value_of-standard : (k : ℕ) → k < 64 → value_of b'+' b'/' (char_of b'+' b'/' k) ≡ k
value_of-standard k l = ground (arith, l)
