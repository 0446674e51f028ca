-- ===== src/Ids/Base64.antt =====
-- base64.rs: `Display` of `Base64`, and a decoder to compare it with.
use swindon.Prelude.{
  ℕ, ◌+◌, ◌*◌, ◌/◌, ◌%◌, ◌^◌, ◌<◌, ◌≡◌, refl, false, List, [], ◌∷◌, ◌++◌, Option, none, some,
  option_map, arith, All, nat_beq, if◌then◌else◌,
}
use swindon.Outcome.{Outcome, ok, ◌>>=◌, expect, Returns, Returns->>=}
use swindon.Heap.Items.{nth}
use swindon.Ids.Digits.{
  standard_chars, digit, joined, char_of, value_of, nth-standard_chars, value_of-standard,
}

-- `enc`
abbrev pub enc : ℕ → Outcome ℕ
enc k = expect (nth standard_chars k)

-- What is written for the bytes, which come in blocks of three; at most two are left.
unfoldable pub base64 : List ℕ → Outcome (List ℕ)
base64 [] = ok []
base64 (x ∷ []) = do
  let n = joined x 0 0
  a ← enc (digit n 18)
  b ← enc (digit n 12)
  ok (a ∷ b ∷ b'=' ∷ b'=' ∷ [])
base64 (x ∷ y ∷ []) = do
  let n = joined x y 0
  a ← enc (digit n 18)
  b ← enc (digit n 12)
  c ← enc (digit n 6)
  ok (a ∷ b ∷ c ∷ b'=' ∷ [])
base64 (x ∷ y ∷ z ∷ bytes) = do
  let n = joined x y z
  a ← enc (digit n 18)
  b ← enc (digit n 12)
  c ← enc (digit n 6)
  d ← enc (digit n 0)
  rest ← base64 bytes
  ok (a ∷ b ∷ c ∷ d ∷ rest)

unfoldable pub value : ℕ → ℕ
value c = value_of b'+' b'/' c

-- The last block of a text.
abbrev pub last_bytes : ℕ → ℕ → ℕ → ℕ → List ℕ
last_bytes a b c d =
    let n = value a * 2 ^ 18 + value b * 2 ^ 12 in
    if nat_beq c b'='
    then n / 2 ^ 16 ∷ []
    else if nat_beq d b'='
    then n / 2 ^ 16 ∷ (n + value c * 2 ^ 6) / 2 ^ 8 % 256 ∷ []
    else (n / 2 ^ 16
        ∷ (n + value c * 2 ^ 6) / 2 ^ 8 % 256
        ∷ (n + value c * 2 ^ 6 + value d) % 256
        ∷ [])

-- The bytes of a text in base64, by the definition of that code.
abbrev pub decoded : List ℕ → Option (List ℕ)
decoded [] = some []
decoded (a ∷ b ∷ c ∷ d ∷ s) = option_map (λ bytes. last_bytes a b c d ++ bytes) (decoded s)
decoded (a ∷ []) = none
decoded (a ∷ b ∷ []) = none
decoded (a ∷ b ∷ c ∷ []) = none

abbrev pub IsByte : ℕ → Type 0
IsByte x = x < 256

unfoldable char : ℕ → ℕ
char k = char_of b'+' b'/' k

enc-char : (k : ℕ) → k < 64 → enc k ≡ ok (char k)
unfolding char
enc-char k l = rw (nth-standard_chars k l) refl

value-char : (k : ℕ) → k < 64 → value (char k) ≡ k
unfolding char value
value-char k l = value_of-standard k l

char-padding : (k : ℕ) → k < 64 → nat_beq (char k) b'=' ≡ false
unfolding char
char-padding k l = ground (arith, l)

enc-digit : (n k : ℕ) → enc (digit n k) ≡ ok (char (digit n k))
enc-digit n k = enc-char (digit n k) (omega arith)

value-digit : (n k : ℕ) → value (char (digit n k)) ≡ digit n k
value-digit n k = value-char (digit n k) (omega arith)

digit-padding : (n k : ℕ) → nat_beq (char (digit n k)) b'=' ≡ false
digit-padding n k = char-padding (digit n k) (omega arith)

-- Digits put together are what was joined.
digits :
    (x y z : ℕ)
    → IsByte x
    → IsByte y
    → IsByte z
    → let n = joined x y z in
      digit n 18 * 2 ^ 18 + digit n 12 * 2 ^ 12 + digit n 6 * 2 ^ 6 + digit n 0 ≡ n
digits x y z p q r = omega (arith, p, q, r)

three_bytes :
    (x y z : ℕ)
    → IsByte x
    → IsByte y
    → IsByte z
    → let n = joined x y z in
      last_bytes (char (digit n 18)) (char (digit n 12)) (char (digit n 6)) (char (digit n 0))
      ≡ x ∷ y ∷ z ∷ []
three_bytes x y z p q r =
    let n = joined x y z in
    ground (
      arith,
      value-digit n 18,
      value-digit n 12,
      value-digit n 6,
      value-digit n 0,
      digit-padding n 6,
      digit-padding n 0,
      digits x y z p q r,
      p,
      q,
      r,
    )

two_bytes :
    (x y : ℕ)
    → IsByte x
    → IsByte y
    → let n = joined x y 0 in
      last_bytes (char (digit n 18)) (char (digit n 12)) (char (digit n 6)) b'=' ≡ x ∷ y ∷ []
two_bytes x y p q =
    let n = joined x y 0 in
    ground (
      arith,
      value-digit n 18,
      value-digit n 12,
      value-digit n 6,
      digit-padding n 6,
      digits x y 0 p q (omega arith),
      p,
      q,
    )

one_byte :
    (x : ℕ)
    → IsByte x
    → let n = joined x 0 0 in last_bytes (char (digit n 18)) (char (digit n 12)) b'=' b'=' ≡ x ∷ []
one_byte x p =
    let n = joined x 0 0 in
    ground
      (arith, value-digit n 18, value-digit n 12, digits x 0 0 p (omega arith) (omega arith), p)

-- The text of a list of bytes is written without a panic, and decodes to these bytes, whatever
-- their number leaves when it is divided by three.
pub base64-decoded :
    (bytes : List ℕ) → All IsByte bytes → Returns (λ s. decoded s ≡ some bytes) (base64 bytes)
unfolding base64
base64-decoded [] p = refl
base64-decoded (x ∷ []) p =
    let n = joined x 0 0 in rw (enc-digit n 18, enc-digit n 12) (ground (arith, one_byte x p.0))
base64-decoded (x ∷ y ∷ []) p =
    let n = joined x y 0 in
    rw (enc-digit n 18, enc-digit n 12, enc-digit n 6) (ground (arith, two_bytes x y p.0 p.1.0))
base64-decoded (x ∷ y ∷ z ∷ bytes) p =
    let n = joined x y z in
    rw (enc-digit n 18, enc-digit n 12, enc-digit n 6, enc-digit n 0)
      (Returns->>= (λ s. decoded s ≡ some bytes) (λ s. decoded s ≡ some (x ∷ y ∷ z ∷ bytes))
        (base64 bytes)
        (λ rest.
          ok (char (digit n 18) ∷ char (digit n 12) ∷ char (digit n 6) ∷ char (digit n 0) ∷ rest))
        (base64-decoded bytes p.1.1.1) (λ s e. rw (e, three_bytes x y z p.0 p.1.0 p.1.1.0) refl))
