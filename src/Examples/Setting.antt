-- ===== src/Examples/Setting.antt =====
-- A world of strings and whole numbers.
use swindon.Prelude.{ℕ, ltb, arith, String}
use swindon.World.{World}
use swindon.Examples.Deadlines.{deadlines}

instance abbrev pub paper : World
paper = record {
  Json = String;
  F64 = ℕ;
  lt = ltb;
  text = λ s. s;
  object = "{}";
  millis = λ t. t;
  lt_irrefl = λ a. ground arith;
}
