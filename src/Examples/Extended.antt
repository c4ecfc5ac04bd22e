-- ===== src/Examples/Extended.antt =====
-- Whole numbers with an infinity and NaN in place of float64, as a check that the laws of the order allow
-- both: a product of zero and the infinity is NaN here, and so is a difference of two infinities.
use Prim.Native.Nat.{min, max}
use native.Mathlib.Nat.{mul-le-mul_left}
use aforo_nextgen_loadgen.Base.{
  ℕ, zero, suc, Bool, true, false, not, ◌≡◌, ◌⊎◌, inl, inr, refl, ◌+◌, ◌-◌, ◌*◌, ◌/◌, leb, ltb,
  arith, le→leb, leb→le, if◌then◌else◌,
}
use aforo_nextgen_loadgen.Base.Floats.{Floats, FloatOrder}

pub data Extended : Type 0 where
  finite : ℕ → Extended
  infinite undefined : Extended

abbrev pub le : Extended → Extended → Bool
le (finite x) (finite y) = leb x y
le (finite x) infinite = true
le (finite x) undefined = false
le infinite (finite y) = false
le infinite infinite = true
le infinite undefined = false
le undefined y = false

abbrev pub lt : Extended → Extended → Bool
lt (finite x) (finite y) = ltb x y
lt (finite x) infinite = true
lt (finite x) undefined = false
lt infinite y = false
lt undefined y = false

abbrev pub both : (ℕ → ℕ → ℕ) → Extended → Extended → Extended
both f (finite x) (finite y) = finite (f x y)
both f (finite x) infinite = infinite
both f (finite x) undefined = undefined
both f infinite (finite y) = infinite
both f infinite infinite = infinite
both f infinite undefined = undefined
both f undefined y = undefined

abbrev pub difference : Extended → Extended → Extended
difference (finite x) (finite y) = finite (x - y)
difference (finite x) infinite = finite 0
difference (finite x) undefined = undefined
difference infinite (finite y) = infinite
difference infinite infinite = undefined
difference infinite undefined = undefined
difference undefined y = undefined

abbrev pub of_positive : ℕ → Extended
of_positive zero = undefined
of_positive (suc n) = infinite

abbrev pub product : Extended → Extended → Extended
product (finite x) (finite y) = finite (x * y)
product (finite x) infinite = of_positive x
product (finite x) undefined = undefined
product infinite (finite y) = of_positive y
product infinite infinite = infinite
product infinite undefined = undefined
product undefined y = undefined

abbrev pub least : Extended → Extended → Extended
least (finite x) (finite y) = finite (min x y)
least (finite x) infinite = finite x
least (finite x) undefined = undefined
least infinite y = y
least undefined y = undefined

abbrev pub whole_part : Extended → ℕ
whole_part (finite x) = x
whole_part infinite = 0
whole_part undefined = 0

abbrev pub is_undefined : Extended → Bool
is_undefined (finite x) = false
is_undefined infinite = false
is_undefined undefined = true

abbrev pub is_infinite : Extended → Bool
is_infinite (finite x) = false
is_infinite infinite = true
is_infinite undefined = false

abbrev pub extended : Floats
extended = record {
  Float = Extended;
  of_int = finite;
  to_int = whole_part;
  add = both (λ x y. x + y);
  sub = difference;
  mul = product;
  quot = both (λ x y. x / y);
  le = le;
  lt = lt;
  eq = λ x y. if le x y then le y x else false;
  is_nan = is_undefined;
  is_inf = is_infinite;
  min = least;
  max = both max;
  ceil = λ x. x;
  round_even = λ x. x;
  round = λ x. x;
}

pub extended_order : FloatOrder extended
extended_order = record {
  number_of_le = number_of_le;
  le_trans = trans;
  le_total = total;
  lt-not-le = strict;
  of_int_number = λ n. ground arith;
  min_lower = lower;
  min_greatest = greatest;
  max_upper = upper;
  sub_nonneg = nonneg;
  mul_grows = grows;
  one_above_zero = ground arith;
}
  where
    number_of_le : (x y : Extended) → le x y ≡ true → (le x x ≡ true) × (le y y ≡ true)
    number_of_le (finite x) (finite y) h = (ground arith, ground arith)
    number_of_le (finite x) infinite h = (ground arith, refl)
    number_of_le (finite x) undefined h = absurd cc h
    number_of_le infinite (finite y) h = absurd cc h
    number_of_le infinite infinite h = (refl, refl)
    number_of_le infinite undefined h = absurd cc h
    number_of_le undefined y h = absurd cc h

    trans : (x y z : Extended) → le x y ≡ true → le y z ≡ true → le x z ≡ true
    trans (finite x) (finite y) (finite z) h k = ground arith
    trans (finite x) (finite y) infinite h k = refl
    trans (finite x) (finite y) undefined h k = absurd cc k
    trans (finite x) infinite (finite z) h k = absurd cc k
    trans (finite x) infinite infinite h k = refl
    trans (finite x) infinite undefined h k = absurd cc k
    trans (finite x) undefined z h k = absurd cc h
    trans infinite (finite y) z h k = absurd cc h
    trans infinite infinite z h k = k
    trans infinite undefined z h k = absurd cc h
    trans undefined y z h k = absurd cc h

    total : (x y : Extended) → le x x ≡ true → le y y ≡ true → (le x y ≡ true) ⊎ (le y x ≡ true)
    total (finite x) (finite y) h k = ground arith
    total (finite x) infinite h k = inl refl
    total infinite (finite y) h k = inr refl
    total infinite infinite h k = inl refl
    total x undefined h k = absurd cc k
    total undefined y h k = absurd cc h

    strict : (x y : Extended) → le x x ≡ true → le y y ≡ true → lt x y ≡ not (le y x)
    strict (finite x) (finite y) h k = ground arith
    strict (finite x) infinite h k = refl
    strict infinite (finite y) h k = refl
    strict infinite infinite h k = refl
    strict x undefined h k = absurd cc k
    strict undefined y h k = absurd cc h

    lower :
        (x y : Extended)
        → le x x ≡ true
        → le y y ≡ true
        → (le (least x y) x ≡ true) × (le (least x y) y ≡ true)
    lower (finite x) (finite y) h k = (ground arith, ground arith)
    lower (finite x) infinite h k = (h, refl)
    lower infinite (finite y) h k = (refl, k)
    lower infinite infinite h k = (refl, refl)
    lower x undefined h k = absurd cc k
    lower undefined y h k = absurd cc h

    greatest : (x y z : Extended) → le z x ≡ true → le z y ≡ true → le z (least x y) ≡ true
    greatest (finite x) (finite y) (finite z) h k = ground arith
    greatest (finite x) (finite y) infinite h k = absurd cc h
    greatest (finite x) infinite z h k = h
    greatest infinite y z h k = k
    greatest x y undefined h k = absurd cc h
    greatest undefined y (finite z) h k = absurd cc h
    greatest undefined y infinite h k = absurd cc h
    greatest (finite x) undefined (finite z) h k = absurd cc k
    greatest (finite x) undefined infinite h k = absurd cc k

    upper :
        (x y : Extended)
        → le x x ≡ true
        → le y y ≡ true
        → (le x (both max x y) ≡ true) × (le y (both max x y) ≡ true)
    upper (finite x) (finite y) h k = (ground arith, ground arith)
    upper (finite x) infinite h k = (refl, refl)
    upper infinite (finite y) h k = (refl, refl)
    upper infinite infinite h k = (refl, refl)
    upper x undefined h k = absurd cc k
    upper undefined y h k = absurd cc h

    nonneg :
        (x y : Extended)
        → le y x ≡ true
        → le (difference x y) (difference x y) ≡ true
        → le (finite 0) (difference x y) ≡ true
    nonneg (finite x) (finite y) h k = ground arith
    nonneg (finite x) infinite h k = absurd cc h
    nonneg (finite x) undefined h k = absurd cc h
    nonneg infinite (finite y) h k = refl
    nonneg infinite infinite h k = absurd cc k
    nonneg infinite undefined h k = absurd cc h
    nonneg undefined y h k = absurd cc k

    grows :
        (x y : Extended)
        → le (finite 0) x ≡ true
        → le x (finite 0) ≡ false
        → le (finite 1) y ≡ true
        → le x (product x y) ≡ true
    grows (finite x) (finite y) h p k =
        le→leb x (x * y) (omega (arith, mul-le-mul_left x (leb→le 1 y k)))
    grows (finite zero) infinite h p k = absurd ground (arith, p)
    grows (finite (suc x)) infinite h p k = refl
    grows (finite x) undefined h p k = absurd cc k
    grows infinite (finite zero) h p k = absurd ground (arith, k)
    grows infinite (finite (suc y)) h p k = refl
    grows infinite infinite h p k = refl
    grows infinite undefined h p k = absurd cc k
    grows undefined y h p k = absurd cc h
