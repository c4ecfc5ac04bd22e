-- ===== src/Examples/Billing.antt =====
-- Two tiers, a wallet, and the discounts of a manifest, in whole cents.
use Prim.Native.Nat.{min}
use aforo_nextgen_loadgen.Base.{
  ℕ, ◌≡◌, ◌↔◌, refl, true, String, Option, none, some, List, [], ◌∷◌, map, is_key, if◌then◌else◌,
}
use aforo_nextgen_loadgen.Examples.Fractions.{whole}
use aforo_nextgen_loadgen.Examples.Extended.{
  Extended, finite, infinite, le, extended, extended_order,
}
use aforo_nextgen_loadgen.Lifecycle.Wire.{Strings}
use aforo_nextgen_loadgen.Billing.{
  Tier, RateConfig, Discount, CalcResult, postpaid, hybrid, per_unit, flat_rate,
}
use aforo_nextgen_loadgen.Billing.Tiers.{graduated_charge}
use aforo_nextgen_loadgen.Billing.Tiers.Split.{top, units_of, IsChain, graduated_charge-IsChain}
use aforo_nextgen_loadgen.Billing.Stages.{apply_discount, route}
use aforo_nextgen_loadgen.Billing.Stages.Bounds.{
  IsBetween, apply_discount-IsBetween, IsSplit, route-IsSplit,
}
use aforo_nextgen_loadgen.Billing.Calculator.{
  Library, MetricCharge, MetricsInputs, calculate_metrics,
}
use aforo_nextgen_loadgen.Billing.Calculator.Errors.{
  AllKnown, name_of, metric_names, calculate_metrics-AllKnown,
}
use aforo_nextgen_loadgen.Seed.Discounts.{
  parse_float_trailing, parse_discount_label, convert_discount,
}
use aforo_nextgen_loadgen.Seed.Discounts.Scale.{percent_label_takes_all}

abbrev two_tiers : List (Tier ℕ)
two_tiers =
    record { up_to_units = 1000; unit_price = 3; flat_fee = 0 }
    ∷ record { up_to_units = 10000; unit_price = 2; flat_fee = 50 }
    ∷ []

abbrev kept : List (Tier ℕ) → List (Tier ℕ)
kept ts = ts

graduated_charge-IsChain_example :
    IsChain 0 (graduated_charge whole kept 1500 two_tiers).1
    × (units_of (graduated_charge whole kept 1500 two_tiers).1 ≡ min 1500 (top two_tiers))
graduated_charge-IsChain_example = graduated_charge-IsChain whole kept 1500 two_tiers

fifteen_hundred : (graduated_charge whole kept 1500 two_tiers).0 ≡ 4050
unfolding graduated_charge
fifteen_hundred = refl

-- A discount without limit.
abbrev unlimited : Option (Discount Extended)
unlimited = some (record { kind = "FIXED_AMOUNT"; value = infinite })

apply_discount-IsBetween_example :
    IsBetween extended extended_order
      (finite 0)
      (finite 500)
      (apply_discount extended (finite 500) unlimited)
apply_discount-IsBetween_example =
    apply_discount-IsBetween extended extended_order (finite 500) unlimited refl (refl, refl)

route-IsSplit_example :
    IsSplit extended extended_order
      (finite 900)
      (finite 400)
      hybrid
      (route extended (finite 900) hybrid (finite 400)).0
      (route extended (finite 900) hybrid (finite 400)).1
route-IsSplit_example =
    route-IsSplit extended extended_order (finite 900) hybrid (finite 400) refl refl refl

abbrev plain : Strings
plain = record {
  to_upper = λ s. s;
  trim_space = λ s. s;
  replace_newlines = λ s. s;
  byte_len = λ s. 0;
  byte_prefix = λ s n. s;
  join = λ s t. s;
}

abbrev library : Library ℕ
library = record {
  strings = plain;
  is_null = λ s. is_key s "null";
  sort_tiers = kept;
  sort_bands = λ bs. bs;
}

abbrev card : RateConfig ℕ
card = record {
  flat_fee_usd = 900;
  per_unit_rate_usd = 2;
  percentage_rate = 0;
  min_fee_usd = 0;
  included_free_units = 100;
  block_size_units = 0;
  graduated_tiers = two_tiers;
  volume_tiers = [];
  outcome_weights = [];
  staircase_bands = [];
}

abbrev two_metrics : MetricsInputs ℕ
two_metrics = record {
  metrics =
      record {
        name = "calls";
        units = 0;
        charge_base_usd = 0;
        outcomes = [];
        aggregation = "";
        model = per_unit;
        rate = card;
      }
      ∷ record {
        name = "seats";
        units = 3;
        charge_base_usd = 0;
        outcomes = [];
        aggregation = "";
        model = flat_rate;
        rate = card;
      }
      ∷ [];
  discount = none;
  tax_pct = 0;
  mode = postpaid;
}

calculate_metrics-AllKnown_example :
    ((r : CalcResult ℕ) × (lines : List (MetricCharge ℕ)) × (calculate_metrics whole library
          two_metrics 0
        ≡ some (r, lines))
      × (map (name_of whole library) lines ≡ metric_names whole library two_metrics.metrics))
    ↔ AllKnown whole library two_metrics.metrics
calculate_metrics-AllKnown_example = calculate_metrics-AllKnown whole library two_metrics 0

abbrev abc : List String
abc = "A" ∷ "B" ∷ "C" ∷ []

-- The code points of "10" after "pct_".
abbrev ten : String → String → Option (List ℕ)
ten label prefix = if is_key prefix "pct_" then some (49 ∷ 48 ∷ []) else none

ten_is_ten : parse_float_trailing extended (49 ∷ 48 ∷ []) ≡ finite 10
unfolding parse_float_trailing
ten_is_ten = refl

percent_label_takes_all_example :
    le (finite 500) (
      apply_discount extended
        (finite 500)
        (convert_discount (parse_discount_label extended ten "pct_10")))
    ≡ true
unfolding parse_float_trailing
percent_label_takes_all_example =
    percent_label_takes_all extended extended_order ten "pct_10" (49 ∷ 48 ∷ []) (finite 500) refl
      refl refl refl refl
