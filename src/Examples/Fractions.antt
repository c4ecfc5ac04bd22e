-- ===== src/Examples/Fractions.antt =====
-- Whole numbers in place of float64, with the laws that the theorems ask for.
use Prim.Native.Nat.{min, max}
use native.Mathlib.Nat.{mul-le-mul_left}
use aforo_nextgen_loadgen.Base.{
  false, le→leb, leb→le, ℕ, ◌+◌, ◌-◌, ◌*◌, ◌/◌, arith, ltb, leb, ◌==◌, if◌then◌else◌,
}
use aforo_nextgen_loadgen.Base.Floats.{Floats, FloatOrder}

abbrev pub whole : Floats
whole = record {
  Float = ℕ;
  of_int = λ n. n;
  to_int = λ n. n;
  add = λ x y. x + y;
  sub = λ x y. x - y;
  mul = λ x y. x * y;
  quot = λ x y. x / y;
  le = leb;
  lt = ltb;
  eq = λ x y. x == y;
  is_nan = λ x. false;
  is_inf = λ x. false;
  min = min;
  max = max;
  ceil = λ x. x;
  round_even = λ x. x;
  round = λ x. x;
}

pub whole_order : FloatOrder whole
whole_order = record {
  number_of_le = λ x y h. ground arith;
  le_trans = λ x y z h k. ground arith;
  le_total = λ x y h k. ground arith;
  lt-not-le = λ x y h k. ground arith;
  of_int_number = λ n. ground arith;
  min_lower = λ x y h k. ground arith;
  min_greatest = λ x y z h k. ground arith;
  max_upper = λ x y h k. ground arith;
  sub_nonneg = λ x y h k. ground arith;
  mul_grows = λ x y h p k. le→leb x (x * y) (omega (arith, mul-le-mul_left x (leb→le 1 y k)));
  one_above_zero = ground arith;
}

-- Fractions in place of float64: a numerator over a denominator.
abbrev pub fractions : Floats
fractions = record {
  Float = ℕ × ℕ;
  of_int = λ n. (n, 1);
  to_int = λ x. x.0 / x.1;
  add = λ x y. (x.0 * y.1 + y.0 * x.1, x.1 * y.1);
  sub = λ x y. (x.0 * y.1 - y.0 * x.1, x.1 * y.1);
  mul = λ x y. (x.0 * y.0, x.1 * y.1);
  quot = λ x y. (x.0 * y.1, x.1 * y.0);
  le = λ x y. leb (x.0 * y.1) (y.0 * x.1);
  lt = λ x y. ltb (x.0 * y.1) (y.0 * x.1);
  eq = λ x y. (x.0 * y.1) == (y.0 * x.1);
  is_nan = λ x. false;
  is_inf = λ x. false;
  min = λ x y. if leb (x.0 * y.1) (y.0 * x.1) then x else y;
  max = λ x y. if leb (x.0 * y.1) (y.0 * x.1) then y else x;
  ceil = λ x. ((x.0 + x.1 - 1) / x.1, 1);
  round_even = λ x. ((x.0 + x.0 + x.1) / (x.1 + x.1), 1);
  round = λ x. ((x.0 + x.0 + x.1) / (x.1 + x.1), 1);
}
