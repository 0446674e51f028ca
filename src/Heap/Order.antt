-- ===== src/Heap/Order.antt =====
-- `Ord` of Rust, as far as heap.rs uses it.
use swindon.Prelude.{ℕ, ◌≡◌, Bool, true, false, ◌&&◌, ◌||◌, ◌≤◌, ltb, nat_beq, arith}

pub record Ord (T : Type 0) : Type 0 where
  pub lt : T → T → Bool
  pub lt_asym : (a b : T) → lt a b ≡ true → lt b a ≡ false
  pub le_trans : (a b c : T) → lt b a ≡ false → lt c b ≡ false → lt c a ≡ false

abbrev pub pair_lt : ℕ × ℕ → ℕ × ℕ → Bool
pair_lt (t, i) (u, j) = ltb t u || (nat_beq t u && ltb i j)

pub pair_lt_asym : (a b : ℕ × ℕ) → pair_lt a b ≡ true → pair_lt b a ≡ false
pair_lt_asym (t, i) (u, j) h = ground (arith, h)

pub pair_le_trans :
    (a b c : ℕ × ℕ) → pair_lt b a ≡ false → pair_lt c b ≡ false → pair_lt c a ≡ false
pair_le_trans (t, i) (u, j) (v, k) h g = ground (arith, h, g)

-- A pair by its first part, then by its second.
instance abbrev pub pair_ord : Ord (ℕ × ℕ)
pair_ord = record { lt = pair_lt; lt_asym = pair_lt_asym; le_trans = pair_le_trans }

pub lt-pair : (a b : ℕ × ℕ) → pair_ord.lt a b ≡ false → b.0 ≤ a.0
lt-pair (t, i) (u, j) h = ground (arith, h)
