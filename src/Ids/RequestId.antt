-- ===== src/Ids/RequestId.antt =====
-- request_id.rs: how request ids are made and read. The clock and the random bytes are arguments.
use swindon.Prelude.{
  ℕ, ◌+◌, ◌*◌, ◌/◌, ◌%◌, ◌^◌, Bool, not, ◌||◌, List, [], ◌∷◌, ◌++◌, Option, none, some, nat_beq,
  if◌then◌else◌, length,
}
use swindon.Outcome.{Outcome, ok, ◌>>=◌, expect}
use swindon.Intern.{all, is_alphanumeric}
use swindon.Heap.Items.{nth}
use swindon.Ids.Digits.{url_chars, digit, joined}

pub record RequestIdGenerator : Type 0 where
  pub thread_id : List ℕ
  pub counter : ℕ

-- Three bytes.
abbrev pub Three : Type 0
Three = ℕ × ℕ × ℕ

unfoldable pub base64triple : Three → Outcome (List ℕ)
base64triple (x, y, z) = do
  let n = joined x y z
  a ← expect (nth url_chars (digit n 18))
  b ← expect (nth url_chars (digit n 12))
  c ← expect (nth url_chars (digit n 6))
  d ← expect (nth url_chars (digit n 0))
  ok (a ∷ b ∷ c ∷ d ∷ [])

-- The generator of a thread, of twelve random bytes and a random number.
unfoldable pub with_generator : Three → Three → Three → Three → ℕ → Outcome RequestIdGenerator
unfolding base64triple
with_generator bytes₀ bytes₁ bytes₂ bytes₃ counter = do
  a ← base64triple bytes₀
  b ← base64triple bytes₁
  c ← base64triple bytes₂
  d ← base64triple bytes₃
  ok (record { thread_id = a ++ b ++ c ++ d; counter = counter })

-- `(n >> k) as u8`
abbrev pub byte : ℕ → ℕ → ℕ
byte n k = n / 2 ^ k % 256

abbrev pub high : ℕ → Three
high n = (byte n 40, byte n 32, byte n 24)

abbrev pub low : ℕ → Three
low n = (byte n 16, byte n 8, byte n 0)

-- The time in milliseconds, in six bytes.
abbrev pub milliseconds : ℕ → ℕ → ℕ
milliseconds secs nanos = (secs * 1000 + nanos / 1000000) % 2 ^ 64 % 2 ^ 48

-- `time` is the duration since the epoch, if the clock is not before it.
unfoldable pub new : Option (ℕ × ℕ) → RequestIdGenerator → Outcome (List ℕ × RequestIdGenerator)
unfolding base64triple
new time rid = do
  (secs, nanos) ← expect time
  let ms = milliseconds secs nanos
  a ← base64triple (high ms)
  b ← base64triple (low ms)
  let n = rid.counter
  c ← base64triple (high n)
  d ← base64triple (low n)
  ok (
    a ++ (b ++ (rid.thread_id ++ (c ++ d))),
    record { thread_id = rid.thread_id; counter = (n + 1) % 2 ^ 64 },
  )

abbrev pub id_char : ℕ → Bool
id_char c = is_alphanumeric c || nat_beq c b'-' || nat_beq c b'_'

-- A text that passes the first test is ASCII, so that it has as many bytes as characters.
unfoldable pub from_str : List ℕ → Option (List ℕ)
from_str src =
    if not (all id_char src) then none else if not (nat_beq (length src) 32) then none else some src
