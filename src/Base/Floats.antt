-- ===== src/Base/Floats.antt =====
-- The float64 operations that the program uses. The type and its arithmetic belong to the Go language,
-- so a component that computes with floats takes a record of this type.
use Prim.Native.Nat.{ℕ}
use mathlib.Core.Path.{◌≡◌}
use mathlib.Core.Logic.{◌⊎◌}
use mathlib.Core.Bool.{Bool, true, false, not}

pub record Floats : Type 1 where
  pub Float : Type 0
  -- float64(n) of an integer that is not negative, and int64(x) of a float that is not negative
  pub of_int : ℕ → Float
  pub to_int : Float → ℕ
  pub add : Float → Float → Float
  pub sub : Float → Float → Float
  pub mul : Float → Float → Float
  pub quot : Float → Float → Float
  -- a <= b, a < b, a == b
  pub le : Float → Float → Bool
  pub lt : Float → Float → Bool
  pub eq : Float → Float → Bool
  -- math.IsNaN, math.IsInf(x, 0)
  pub is_nan : Float → Bool
  pub is_inf : Float → Bool
  -- math.Min, math.Max, math.Ceil, math.RoundToEven, math.Round
  pub min : Float → Float → Float
  pub max : Float → Float → Float
  pub ceil : Float → Float
  pub round_even : Float → Float
  pub round : Float → Float

-- The laws of the order that float64 keeps, the infinities and NaN included. NaN is the value that is not
-- `<=` itself. A difference can be NaN (of two infinities), and so can a product of zero and an infinity:
-- the law of the difference asks that it is not, and the law of the product asks for a positive factor.
pub record FloatOrder (fl : Floats) : Type 0 where
  pub number_of_le : (x y : fl.Float) → fl.le x y ≡ true → (fl.le x x ≡ true) × (fl.le y y ≡ true)
  pub le_trans : (x y z : fl.Float) → fl.le x y ≡ true → fl.le y z ≡ true → fl.le x z ≡ true
  pub le_total :
      (x y : fl.Float)
      → fl.le x x ≡ true
      → fl.le y y ≡ true
      → (fl.le x y ≡ true) ⊎ (fl.le y x ≡ true)
  pub lt-not-le :
      (x y : fl.Float) → fl.le x x ≡ true → fl.le y y ≡ true → fl.lt x y ≡ not (fl.le y x)
  pub of_int_number : (n : ℕ) → fl.le (fl.of_int n) (fl.of_int n) ≡ true
  pub min_lower :
      (x y : fl.Float)
      → fl.le x x ≡ true
      → fl.le y y ≡ true
      → (fl.le (fl.min x y) x ≡ true) × (fl.le (fl.min x y) y ≡ true)
  pub min_greatest :
      (x y z : fl.Float) → fl.le z x ≡ true → fl.le z y ≡ true → fl.le z (fl.min x y) ≡ true
  pub max_upper :
      (x y : fl.Float)
      → fl.le x x ≡ true
      → fl.le y y ≡ true
      → (fl.le x (fl.max x y) ≡ true) × (fl.le y (fl.max x y) ≡ true)
  pub sub_nonneg :
      (x y : fl.Float)
      → fl.le y x ≡ true
      → fl.le (fl.sub x y) (fl.sub x y) ≡ true
      → fl.le (fl.of_int 0) (fl.sub x y) ≡ true
  pub mul_grows :
      (x y : fl.Float)
      → fl.le (fl.of_int 0) x ≡ true
      → fl.le x (fl.of_int 0) ≡ false
      → fl.le (fl.of_int 1) y ≡ true
      → fl.le x (fl.mul x y) ≡ true
  pub one_above_zero : fl.le (fl.of_int 1) (fl.of_int 0) ≡ false
