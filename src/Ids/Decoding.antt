-- ===== src/Ids/Decoding.antt =====
-- What can be read from a request id.
use swindon.Prelude.{
  ℕ, zero, suc, ◌+◌, ◌*◌, ◌%◌, ◌^◌, ◌<◌, ◌≡◌, refl, Bool, true, List, [], ◌∷◌, ◌++◌, some, arith,
  length, length-append, subst, ap, ◌∙◌,
}
use swindon.Outcome.{ok, Returns}
use swindon.Intern.{all}
use swindon.Heap.Items.{nth}
use swindon.Ids.Digits.{url_chars, digit, joined, char_of, value_of, nth-url_chars, value_of-url}
use swindon.Ids.RequestId.{
  RequestIdGenerator, Three, base64triple, with_generator, byte, high, low, milliseconds, new,
  id_char, from_str,
}

unfoldable pub value : ℕ → ℕ
value c = value_of b'-' b'_' c

-- The number that digits stand for, `n` being that of the digits before them.
abbrev pub number : ℕ → List ℕ → ℕ
number n [] = n
number n (c ∷ s) = number (n * 64 + value c) s

abbrev pub take : ℕ → List ℕ → List ℕ
take zero s = []
take (suc n) [] = []
take (suc n) (c ∷ s) = c ∷ take n s

abbrev pub drop : ℕ → List ℕ → List ℕ
drop zero s = s
drop (suc n) [] = []
drop (suc n) (c ∷ s) = drop n s

-- The first eight digits.
abbrev pub time_of : List ℕ → ℕ
time_of s = number 0 (take 8 s)

-- The last eight digits of a text of 32.
abbrev pub sequence_of : List ℕ → ℕ
sequence_of s = number 0 (drop 24 s)

unfoldable char : ℕ → ℕ
char k = char_of b'-' b'_' k

char-digit : (n k : ℕ) → nth url_chars (digit n k) ≡ some (char (digit n k))
unfolding char
char-digit n k = nth-url_chars (digit n k) (omega arith)

value-digit : (n k : ℕ) → value (char (digit n k)) ≡ digit n k
unfolding char value
value-digit n k = value_of-url (digit n k) (omega arith)

id_char-digit : (n k : ℕ) → id_char (char (digit n k)) ≡ true
unfolding char
id_char-digit n k = let l : digit n k < 64 = omega arith in ground (arith, l)

-- The four characters of three bytes.
abbrev quad : Three → List ℕ
quad (x, y, z) =
    let n = joined x y z in
    char (digit n 18) ∷ char (digit n 12) ∷ char (digit n 6) ∷ char (digit n 0) ∷ []

base64triple_lem : (t : Three) → base64triple t ≡ ok (quad t)
unfolding base64triple
base64triple_lem (x, y, z) =
    let n = joined x y z in
    rw (char-digit n 18, char-digit n 12, char-digit n 6, char-digit n 0) refl

all-quad : (t : Three) → all id_char (quad t) ≡ true
all-quad (x, y, z) =
    let n = joined x y z in
    rw (id_char-digit n 18, id_char-digit n 12, id_char-digit n 6, id_char-digit n 0) refl

-- Six bytes of a number are its remainder.
number-quads : (n : ℕ) → number 0 (quad (high n) ++ quad (low n)) ≡ n % 2 ^ 48
number-quads n =
    let a = joined (byte n 40) (byte n 32) (byte n 24) in
    let b = joined (byte n 16) (byte n 8) (byte n 0) in
    rw
      (
        value-digit a 18,
        value-digit a 12,
        value-digit a 6,
        value-digit a 0,
        value-digit b 18,
        value-digit b 12,
        value-digit b 6,
        value-digit b 0,
      )
      (omega arith)

pub all-append :
    (p : ℕ → Bool) (s t : List ℕ) → all p s ≡ true → all p t ≡ true → all p (s ++ t) ≡ true
all-append p [] t a b = b
all-append p (c ∷ s) t a b = ground (arith, a, all-append p s t (ground (arith, a)) b)

drop-append : (s t : List ℕ) → drop (length s) (s ++ t) ≡ t
drop-append [] t = refl
drop-append (c ∷ s) t = drop-append s t

-- A generator whose part of the id is the text of twelve bytes.
pub record IsGenerator (rid : RequestIdGenerator) : Type 0 where
  pub size : length rid.thread_id ≡ 16
  pub chars : all id_char rid.thread_id ≡ true

pub with_generator-IsGenerator :
    (a b c d : Three) (counter : ℕ) → Returns IsGenerator (with_generator a b c d counter)
unfolding with_generator
with_generator-IsGenerator a b c d counter =
    rw (base64triple_lem a, base64triple_lem b, base64triple_lem c, base64triple_lem d)
      (record {
        size = refl;
        chars = all-append id_char (quad a) (quad b ++ quad c ++ quad d) (all-quad a) (
            all-append id_char (quad b) (quad c ++ quad d) (all-quad b)
              (all-append id_char (quad c) (quad d) (all-quad c) (all-quad d)));
      })

from_str-some : (s : List ℕ) → all id_char s ≡ true → length s ≡ 32 → from_str s ≡ some s
unfolding from_str
from_str-some s a b = rw (a, b) refl

-- What is to be read from a new id.
pub record Readable (secs nanos counter : ℕ) (r : List ℕ × RequestIdGenerator) : Type 0 where
  pub parsed : from_str r.0 ≡ some r.0
  pub time : time_of r.0 ≡ milliseconds secs nanos
  pub sequence : sequence_of r.0 ≡ counter % 2 ^ 48
  pub next : r.1.counter ≡ (counter + 1) % 2 ^ 64
  pub generator : IsGenerator r.1

-- With a generator whose part is 16 characters of ids, a new id is made without a panic. It can be
-- parsed, its first eight digits are the time in milliseconds and its last eight the counter, each
-- in six bytes; the counter goes up by one, and the generator can be used again.
pub new-Readable :
    (secs nanos : ℕ) (rid : RequestIdGenerator)
    → IsGenerator rid
    → Returns (Readable secs nanos rid.counter) (new (some (secs, nanos)) rid)
unfolding new
new-Readable secs nanos rid g =
    let ms = milliseconds secs nanos in
    let n = rid.counter in
    let end = quad (high n) ++ quad (low n) in
    let text = quad (high ms) ++ (quad (low ms) ++ (rid.thread_id ++ end)) in
    let chars : all id_char text ≡ true =
      all-append id_char (quad (high ms)) (quad (low ms) ++ rid.thread_id ++ end)
        (all-quad (high ms))
        (all-append id_char (quad (low ms)) (rid.thread_id ++ end) (all-quad (low ms)) (
          all-append id_char rid.thread_id end g.chars (
            all-append id_char (quad (high n)) (quad (low n)) (all-quad (high n))
              (all-quad (low n))))) in
    let rest : drop 16 (rid.thread_id ++ end) ≡ end =
      subst (λ k. drop k (rid.thread_id ++ end) ≡ end) g.size (drop-append rid.thread_id end) in
    rw
      (
        base64triple_lem (high ms),
        base64triple_lem (low ms),
        base64triple_lem (high n),
        base64triple_lem (low n),
      )
      (record {
        parsed = from_str-some text chars (omega (arith, length-append rid.thread_id end, g.size));
        time = number-quads ms ∙ omega arith;
        sequence = ap (number 0) rest ∙ number-quads n;
        next = refl;
        generator = record { size = g.size; chars = g.chars };
      })
