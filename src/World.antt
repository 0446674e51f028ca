-- ===== src/World.antt =====
-- What the program takes from crates and from hardware: JSON values and IEEE 754 numbers.
use swindon.Prelude.{ℕ, ◌≡◌, Bool, false, String}

-- `serde_json::Value`, and `f64` with its `<`, which is a strict partial order (NaN is unordered).
pub record World : Type 1 where
  pub Json : Type 0
  pub F64 : Type 0
  pub lt : F64 → F64 → Bool
  -- `Json::from(text)`, and the empty object `json!({})`.
  pub text : String → Json
  pub object : Json
  -- A number of milliseconds since the epoch, `as f64`.
  pub millis : ℕ → F64
  pub lt_irrefl : (a : F64) → lt a a ≡ false
