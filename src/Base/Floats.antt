-- ===== src/Base/Floats.antt =====
-- The float arithmetic that the program uses, as an interface: what the program needs of it is stated
-- as hypotheses where a theorem needs it.
use asrcpp_gigam.Base.{ltb, leb, ℕ, ◌+◌, ◌*◌, ◌/◌, Bool}

-- `lt` and `le` are C++'s tests (false on a NaN), `lit n d` is the decimal literal n / d, `of_nat`
-- and `to_nat` the casts from and to an integer type; `to_nat` is 0 where the value is negative.
pub record Floats : Type 1 where
  pub Float : Type 0
  pub lt : Float → Float → Bool
  pub le : Float → Float → Bool
  pub lit : ℕ → ℕ → Float
  pub of_nat : ℕ → Float
  pub to_nat : Float → ℕ
  pub neg : Float → Float
  pub add : Float → Float → Float
  pub mul : Float → Float → Float
  pub div : Float → Float → Float

-- Thousandths of a unit, and 0 for what is below 0. The instance serves to run the model and to meet
-- the hypotheses.
abbrev pub milli : Floats
milli = record {
  Float = ℕ;
  lt = ltb;
  le = leb;
  lit = λ n d. n * 1000 / d;
  of_nat = λ n. n * 1000;
  to_nat = λ x. x / 1000;
  neg = λ x. 0;
  add = λ x y. x + y;
  mul = λ x y. x * y / 1000;
  div = λ x y. x * 1000 / y;
}
