-- ===== src/Scenario/Models.antt =====
-- What a pricing model asks of the rate of an archetype or of a rate card: the switches of checkTenants and
-- checkRateCards, and checkModelSpecificConfig (internal/scenario/validator.go, validator_outcomes.go).
use aforo_nextgen_loadgen.Base.{
  pos, lez, Bool, true, false, not, ◌&&◌, ◌||◌, String, List, [], ◌∷◌, ◌++◌, is_key,
}
use aforo_nextgen_loadgen.Base.Floats.{Floats}
use aforo_nextgen_loadgen.Scenario.Bands.{
  is_empty, validate_tier_band_ordering, check_staircase_bands,
}
use aforo_nextgen_loadgen.Scenario.Rates.{TierBand, RateConfig, MetricOverride}
use aforo_nextgen_loadgen.Scenario.Names.{is_valid_pricing_model}
use aforo_nextgen_loadgen.Scenario.Report.{
  no_tiers, not_positive, above_one, not_a_fraction, needs_quota, flat_fee_per_metric, unknown_kind,
  Violation, Library, report_if,
}
use aforo_nextgen_loadgen.Scenario.Weights.{check_outcome_weights}

-- A case of a switch; the cases exclude each other.
unfoldable pub when : Bool → List Violation → List Violation
when true reports = reports
when false reports = []

module _ (fl : Floats) (lib : Library fl.Float) where
  -- x <= 0
  unfoldable pub is_not_above_zero : fl.Float → Bool
  is_not_above_zero x = fl.le x (fl.of_int 0)

  unfoldable pub check_tiers : List String → List (TierBand fl.Float) → List Violation
  check_tiers path bands =
      report_if (is_empty bands) path no_tiers ++ validate_tier_band_ordering fl lib path bands

  unfoldable pub check_outcome_config : List String → RateConfig fl.Float → List Violation
  check_outcome_config path rc =
      report_if (not (fl.lt (fl.of_int 0) rc.per_unit_rate_usd))
        (path ++ "rate_config" ∷ "per_unit_rate_usd" ∷ []) not_positive
      ++ check_outcome_weights fl lib (path ++ "rate_config" ∷ "outcome_weights" ∷ [])
          rc.outcome_weights

  unfoldable pub check_model_specific_config :
      List String → String → RateConfig fl.Float → List Violation
  check_model_specific_config path model rc =
      when (is_key model "OUTCOME_BASED") (check_outcome_config path rc)
      ++ when (is_key model "STAIRCASE") (
          check_staircase_bands fl lib (path ++ "rate_config" ∷ "staircase_bands" ∷ [])
            rc.staircase_bands)

  unfoldable pub check_percentage : List String → RateConfig fl.Float → List Violation
  check_percentage at rc =
      report_if (fl.lt (fl.of_int 1) rc.percentage_rate) at above_one
      ++ report_if (is_not_above_zero rc.percentage_rate) at not_positive

  -- The switch on the pricing model.
  unfoldable pub check_minimums : List String → String → RateConfig fl.Float → List Violation
  check_minimums path model rc =
      let at = path ++ "rate_config" ∷ [] in
      when (is_key model "FLAT_RATE")
        (report_if (is_not_above_zero rc.flat_fee_usd) (at ++ "flat_fee_usd" ∷ []) not_positive)
      ++ when (is_key model "PER_UNIT") (
          report_if (is_not_above_zero rc.per_unit_rate_usd) (at ++ "per_unit_rate_usd" ∷ [])
            not_positive)
      ++ when (is_key model "PERCENTAGE") (check_percentage (at ++ "percentage_rate" ∷ []) rc)
      ++ when (is_key model "INCLUDED_QUOTA") (
          report_if (lez rc.included_free_units (pos 0) || is_not_above_zero rc.per_unit_rate_usd)
            at needs_quota)
      ++ when (is_key model "GRADUATED")
          (check_tiers (at ++ "graduated_tiers" ∷ []) rc.graduated_tiers)
      ++ when (is_key model "VOLUME_TIERED")
          (check_tiers (at ++ "volume_tiers" ∷ []) rc.volume_tiers)
      ++ when (is_key model "OUTCOME_BASED" || is_key model "STAIRCASE")
          (check_model_specific_config path model rc)

  unfoldable pub check_metric_outcome : List String → MetricOverride fl.Float → List Violation
  check_metric_outcome p mc =
      report_if (not (fl.lt (fl.of_int 0) mc.per_unit_rate_usd)) (p ++ "per_unit_rate_usd" ∷ [])
        not_positive
      ++ check_outcome_weights fl lib (p ++ "outcome_weights" ∷ []) mc.outcome_weights

  -- An override of one metric of an archetype.
  unfoldable pub check_metric_config :
      List String → String → MetricOverride fl.Float → List Violation
  check_metric_config base name mc =
      let p = base ++ "metric_configs" ∷ name ∷ [] in
      let m = mc.pricing_model in
      report_if (not (is_valid_pricing_model m)) (p ++ "pricing_model" ∷ []) unknown_kind
      ++ when (is_key m "GRADUATED") (check_tiers (p ++ "graduated_tiers" ∷ []) mc.graduated_tiers)
      ++ when (is_key m "VOLUME_TIERED") (check_tiers (p ++ "volume_tiers" ∷ []) mc.volume_tiers)
      ++ when (is_key m "OUTCOME_BASED") (check_metric_outcome p mc)
      ++ when (is_key m "STAIRCASE")
          (check_staircase_bands fl lib (p ++ "staircase_bands" ∷ []) mc.staircase_bands)
      ++ report_if (is_key m "FLAT_RATE" && not (fl.eq mc.flat_fee_usd (fl.of_int 0)))
          (p ++ "flat_fee_usd" ∷ []) flat_fee_per_metric
      ++ report_if
          (is_key m "PERCENTAGE"
            && (is_not_above_zero mc.percentage_rate || fl.lt (fl.of_int 1) mc.percentage_rate))
          (p ++ "percentage_rate" ∷ []) not_a_fraction
