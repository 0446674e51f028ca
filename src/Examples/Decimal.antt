-- ===== src/Examples/Decimal.antt =====
-- Decimal digits have the interface `Decimals`.
use swindon.Prelude.{
  ℕ, zero, suc, ◌+◌, ◌*◌, ◌-◌, ◌/◌, ◌%◌, ◌^◌, ◌<◌, ◌≡◌, refl, ap, ◌∙◌, arith, List, [], ◌∷◌, ◌++◌,
  Option, none, some, true, ltb, if◌then◌else◌, Bool-cases, inl, inr,
}
use swindon.Intern.{all}
use swindon.Ids.PubCid.{Decimals, is_digit}

abbrev digits : ℕ → ℕ → List ℕ
digits zero n = []
digits (suc fuel) n =
    let rest = digits fuel (n / 10) in
    if ltb n 10 then (b'0' + n) ∷ [] else rest ++ (b'0' + n % 10) ∷ []

abbrev value : ℕ → List ℕ → ℕ
value n [] = n
value n (c ∷ s) = value (n * 10 + (c - b'0')) s

abbrev parse : List ℕ → Option ℕ
parse s = if all is_digit s then some (value 0 s) else none

value-append : (n : ℕ) (s : List ℕ) (c : ℕ) → value n (s ++ c ∷ []) ≡ value n s * 10 + (c - b'0')
value-append n [] c = refl
value-append n (d ∷ s) c = value-append (n * 10 + (d - b'0')) s c

all-append :
    (s : List ℕ) (c : ℕ)
    → all is_digit s ≡ true
    → is_digit c ≡ true
    → all is_digit (s ++ c ∷ []) ≡ true
all-append [] c a b = ground (arith, b)
all-append (d ∷ s) c a b = ground (arith, a, all-append s c (ground (arith, a)) b)

value-digits : (fuel n : ℕ) → n < 10 ^ fuel → value 0 (digits fuel n) ≡ n
value-digits zero n l = omega (arith, l)
value-digits (suc fuel) n l = elim (Bool-cases (ltb n 10)) [
  | inl e ↦ rw e (ground (arith, e))
  | inr e ↦
      let m : n / 10 < 10 ^ fuel = grind (arith, l) in
      rw e (
        value-append 0 (digits fuel (n / 10)) (b'0' + n % 10)
        ∙ omega (arith, value-digits fuel (n / 10) m))
]

pub all-digits : (fuel n : ℕ) → all is_digit (digits fuel n) ≡ true
all-digits zero n = refl
all-digits (suc fuel) n = elim (Bool-cases (ltb n 10)) [
  | inl e ↦ rw e (ground (arith, e))
  | inr e ↦
      rw e (
        all-append (digits fuel (n / 10)) (b'0' + n % 10) (all-digits fuel (n / 10)) (ground arith))
]

pub parse-digits : (n : ℕ) → n < 2 ^ 64 → parse (digits 20 n) ≡ some n
parse-digits n l = rw (all-digits 20 n) (ap some (value-digits 20 n (omega (arith, l))))

instance abbrev pub decimal : Decimals
decimal = record {
  show = digits 20;
  parse = parse;
  parse-show = parse-digits;
  all-show = all-digits 20;
}
