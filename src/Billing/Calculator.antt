-- ===== src/Billing/Calculator.antt =====
-- The whole calculation: rate, finish and Calculate of internal/validate/billing/billing.go, and
-- rateMetric and CalculateMetrics of metrics.go. `none` is ErrInvalidConfig.
use aforo_nextgen_loadgen.Base.{
  ℕ, Bool, true, false, not, ◌&&◌, String, Option, none, some, List, [], ◌∷◌, ◌++◌, ◌==◌,
  if◌then◌else◌,
}
use aforo_nextgen_loadgen.Base.Floats.{Floats}
use aforo_nextgen_loadgen.Lifecycle.Wire.{Strings}
use aforo_nextgen_loadgen.Billing.{
  PricingModel, per_unit, flat_rate, percentage, included_quota, graduated, volume_tiered,
  staircase, outcome_based, no_model, Mode, Tier, Band, RateConfig, Discount, OutcomeUsage,
  CalcInputs, TierCharge, CalcResult,
}
use aforo_nextgen_loadgen.Billing.Linear.{
  round_cents, linear_charge, per_unit_charge, included_quota_charge, percentage_charge,
  flat_rate_charge,
}
use aforo_nextgen_loadgen.Billing.Tiers.{graduated_charge, volume_tiered_charge, staircase_charge}
use aforo_nextgen_loadgen.Billing.Outcomes.{weight_outcomes, has_outcome_usage}
use aforo_nextgen_loadgen.Billing.Stages.{apply_discount, route}
pub mod Errors

pub record MetricInput (F : Type 0) : Type 0 where
  pub name : String
  pub units : F
  pub charge_base_usd : F
  pub outcomes : List (OutcomeUsage F)
  pub aggregation : String
  pub model : PricingModel
  pub rate : RateConfig F

pub record MetricCharge (F : Type 0) : Type 0 where
  pub name : String
  pub model : PricingModel
  pub units : F
  pub charge : F

pub record MetricsInputs (F : Type 0) : Type 0 where
  pub metrics : List (MetricInput F)
  pub discount : Option (Discount F)
  pub tax_pct : F
  pub mode : Mode

-- What the calculation takes from Go's libraries.
pub record Library (F : Type 0) : Type 0 where
  pub strings : Strings
  pub is_null : String → Bool
  pub sort_tiers : List (Tier F) → List (Tier F)
  pub sort_bands : List (Band F) → List (Band F)

module _ (fl : Floats) (lib : Library fl.Float) where
  unfoldable pub outcome_charge :
      fl.Float → List (OutcomeUsage fl.Float) → String → RateConfig fl.Float → fl.Float
  unfolding weight_outcomes linear_charge
  outcome_charge units outcomes aggregation r =
      linear_charge fl
        (elim (weight_outcomes fl lib.strings lib.is_null outcomes r.outcome_weights aggregation) [
          | none ↦ units
          | some w ↦ w.weighted
        ])
        r

  unfoldable pub rate : CalcInputs fl.Float → Option (fl.Float × List (TierCharge fl.Float))
  unfolding per_unit_charge outcome_charge has_outcome_usage staircase_charge flat_rate_charge
      percentage_charge included_quota_charge graduated_charge volume_tiered_charge
  rate input = elim input.model [
    | per_unit ↦ some (
      (if input.events == 0 then fl.of_int 0 else per_unit_charge fl input.events input.rate),
      [],
    )
    | outcome_based ↦ some (
      (if input.events == 0 && not (has_outcome_usage fl input.outcomes)
          then fl.of_int 0
          else outcome_charge (fl.of_int input.events) input.outcomes input.aggregation input.rate),
      [],
    )
    | staircase ↦ some (
        staircase_charge fl lib.sort_bands (fl.of_int input.events) input.rate.included_free_units
          input.rate.staircase_bands)
    | flat_rate ↦ some (flat_rate_charge fl input.rate, [])
    | percentage ↦ some (percentage_charge fl input.charge_base_usd input.rate, [])
    | included_quota ↦ some (included_quota_charge fl input.events input.rate, [])
    | graduated ↦ some (graduated_charge fl lib.sort_tiers input.events input.rate.graduated_tiers)
    | volume_tiered ↦
        some (volume_tiered_charge fl lib.sort_tiers input.events input.rate.volume_tiers)
    | no_model m ↦ none
  ]

  unfoldable pub finish :
      fl.Float
      → List (TierCharge fl.Float)
      → Option (Discount fl.Float)
      → fl.Float
      → Mode
      → fl.Float
      → CalcResult fl.Float
  unfolding round_cents apply_discount route
  finish raw breakdown d tax_pct mode wallet_available =
      let subtotal = round_cents fl raw in
      let discount = round_cents fl (apply_discount fl subtotal d) in
      let taxable = fl.sub subtotal discount in
      let tax = round_cents fl (fl.mul taxable tax_pct) in
      let total = fl.add taxable tax in
      let (wallet, invoice) = route fl total mode wallet_available in
      record {
        subtotal = subtotal;
        discount_amount = discount;
        taxable = taxable;
        tax_amount = tax;
        total = total;
        wallet_debit = wallet;
        invoice_usd = invoice;
        tier_breakdown = breakdown;
        stage_order = "rate" ∷ "discount" ∷ "tax" ∷ "route" ∷ [];
      }

  unfoldable pub calculate : CalcInputs fl.Float → fl.Float → Option (CalcResult fl.Float)
  unfolding rate finish
  calculate input wallet_available = elim (rate input) [
    | none ↦ none
    | some (subtotal, breakdown) ↦
        some (finish subtotal breakdown input.discount input.tax_pct input.mode wallet_available)
  ]

  -- A metric of a known model that was not used.
  unfoldable pub unused : PricingModel → Option (fl.Float × List (TierCharge fl.Float))
  unused (no_model m) = none
  unused _ = some (fl.of_int 0, [])

  -- The tiered models are defined on whole units.
  unfoldable pub rate_used :
      PricingModel → MetricInput fl.Float → Option (fl.Float × List (TierCharge fl.Float))
  unfolding outcome_charge
  rate_used per_unit m = some (linear_charge fl m.units m.rate, [])
  rate_used outcome_based m = some (outcome_charge m.units m.outcomes m.aggregation m.rate, [])
  rate_used staircase m =
      some (
        staircase_charge fl lib.sort_bands m.units m.rate.included_free_units
          m.rate.staircase_bands)
  rate_used percentage m = some (percentage_charge fl m.charge_base_usd m.rate, [])
  rate_used included_quota m =
      some (included_quota_charge fl (fl.to_int (fl.round m.units)) m.rate, [])
  rate_used graduated m =
      some
        (graduated_charge fl lib.sort_tiers (fl.to_int (fl.round m.units)) m.rate.graduated_tiers)
  rate_used volume_tiered m =
      some
        (volume_tiered_charge fl lib.sort_tiers (fl.to_int (fl.round m.units)) m.rate.volume_tiers)
  rate_used flat_rate m = some (flat_rate_charge fl m.rate, [])
  rate_used (no_model t) m = none

  -- FLAT_RATE bills its fee whatever the usage.
  unfoldable pub rate_as :
      PricingModel → MetricInput fl.Float → Option (fl.Float × List (TierCharge fl.Float))
  unfolding rate_used unused
  rate_as flat_rate m = rate_used flat_rate m
  rate_as k m =
      if fl.le m.units (fl.of_int 0) && not (has_outcome_usage fl m.outcomes)
      then unused k
      else rate_used k m

  unfoldable pub rate_metric : MetricInput fl.Float → Option (fl.Float × List (TierCharge fl.Float))
  unfolding rate_as
  rate_metric m = rate_as m.model m

  -- The lines, the subtotal and the rows of the bands, added to what came before.
  unfoldable pub rate_metrics :
      List (MetricInput fl.Float)
      → fl.Float
      → List (TierCharge fl.Float)
      → List (MetricCharge fl.Float)
      → Option (fl.Float × List (TierCharge fl.Float) × List (MetricCharge fl.Float))
  unfolding rate_metric round_cents
  rate_metrics [] subtotal breakdown lines = some (subtotal, breakdown, lines)
  rate_metrics (m ∷ rest) subtotal breakdown lines = elim (rate_metric m) [
    | none ↦ none
    | some (raw, rows) ↦
        let charge = round_cents fl raw in
        rate_metrics rest (fl.add subtotal charge) (breakdown ++ rows) (
          lines ++ record { name = m.name; model = m.model; units = m.units; charge = charge } ∷ [])
  ]

  unfoldable pub calculate_metrics :
      MetricsInputs fl.Float
      → fl.Float
      → Option (CalcResult fl.Float × List (MetricCharge fl.Float))
  unfolding rate_metrics finish
  calculate_metrics input wallet_available = elim (rate_metrics input.metrics (fl.of_int 0) [] []) [
    | none ↦ none
    | some (subtotal, breakdown, lines) ↦
        some (
          finish subtotal breakdown input.discount input.tax_pct input.mode wallet_available,
          lines,
        )
  ]
