-- ===== src/Examples/Scenarios.antt =====
-- The scenario of Demo checked, filled in, billed and seeded.
use mathlib.Core.List.Perm
use aforo_nextgen_loadgen.Base.{
  pos, ℕ, ◌≡◌, ◌⊎◌, refl, false, String, none, some, List, [], ◌∷◌, arith, All, length, map, find,
  put, sucz,
}
use aforo_nextgen_loadgen.Examples.Fractions.{whole}
use aforo_nextgen_loadgen.Scenario.Rates.{RateCardSpec, TenantArchetype}
use aforo_nextgen_loadgen.Scenario.Sections.{Scenario}
use aforo_nextgen_loadgen.Scenario.Report.{
  in_turn, report_if, check_each, check_entries, is_off_unit, weights_approx_one, add_weights,
  is_not_finite,
}
use aforo_nextgen_loadgen.Scenario.Names.{
  is_one_of, is_valid_pricing_model, is_valid_billing_mode, is_valid_product_type,
}
use aforo_nextgen_loadgen.Scenario.Bands.{
  check_order, validate_tier_band_ordering, enumerate, check_after, check_band, check_bands_from,
  check_staircase_bands,
}
use aforo_nextgen_loadgen.Scenario.Weights.{
  check_weight_map, check_subscription_state_mix, check_outcome_mix, check_outcome_mixes,
}
use aforo_nextgen_loadgen.Scenario.Models.{
  check_model_specific_config, check_minimums, check_tiers, when, is_not_above_zero,
}
use aforo_nextgen_loadgen.Scenario.RateCards.{
  check_prior, check_name, note_first, note_name, check_filter, check_offering, check_card,
  check_cards, check_card_list, check_rate_cards,
}
use aforo_nextgen_loadgen.Scenario.Archetypes.{
  entries, check_product_type, check_product_types, check_fields, check_maps, check_wallet_balance,
  check_archetype, check_archetypes, check_archetype_list, check_tenants,
}
use aforo_nextgen_loadgen.Scenario.Checks.{
  migrate, check_schema_version, check_identity, check_traffic, check_unit, product_mix_sum,
  check_product_mix, sum_of, ingestion_paths_sum, check_rest_batch, check_ingestion_paths,
  payload_variation_sum, check_payload_variation, check_negative_paths, check_lifecycle,
  check_assertions, has_stale_state, any_archetype_has_stale_states, check_cross_field,
}
use aforo_nextgen_loadgen.Scenario.Services.{
  check_payments, check_tax, check_erp, check_credit_notes, check_wallet, check_fx, check_chaos,
  is_unknown_jurisdiction,
}
use aforo_nextgen_loadgen.Scenario.Validator.{run}
use aforo_nextgen_loadgen.Scenario.Validator.Unique.{
  archetype_names, HasDistinctCards, run-AreDistinct,
}
use aforo_nextgen_loadgen.Scenario.RateCards.Distinct.{AreDistinct}
use aforo_nextgen_loadgen.Scenario.Bands.Cover.{count, check_staircase_bands-covers}
use aforo_nextgen_loadgen.Scenario.Bands.Stairs.{holds, ends_below}
use aforo_nextgen_loadgen.Scenario.Defaults.{apply_defaults}
use aforo_nextgen_loadgen.Scenario.Defaults.Idempotence.{apply_defaults_idem}
use aforo_nextgen_loadgen.Scenario.Estimate.{billing_model, convert_tier}
use aforo_nextgen_loadgen.Scenario.Estimate.Models.{run-calculate}
use aforo_nextgen_loadgen.Billing.{CalcInputs, CalcResult, per_unit, postpaid}
use aforo_nextgen_loadgen.Billing.Calculator
use aforo_nextgen_loadgen.Billing.Calculator.{calculate}
use aforo_nextgen_loadgen.Seed.RatePlans.{tiers_from_bands}
use aforo_nextgen_loadgen.Seed.RatePlans.Agreement.{
  in_tier, reaches, first_flags, tiers_from_bands-convert_tier,
}
use aforo_nextgen_loadgen.Seed.RatePlans.Metrics
use aforo_nextgen_loadgen.Seed.RatePlans.Metrics.{ManifestMetric}
use aforo_nextgen_loadgen.Examples.Demo.{
  plain_strings, in_order, no_rate, steps, tiers, card, archetype, unit_rate, demo,
}

demo_passes : run whole in_order demo ≡ []
unfolding run in_turn report_if check_each check_entries is_off_unit weights_approx_one add_weights
    is_not_finite is_one_of is_valid_pricing_model is_valid_billing_mode is_valid_product_type
    check_order validate_tier_band_ordering enumerate check_after check_band check_bands_from
    check_staircase_bands check_weight_map check_subscription_state_mix check_outcome_mix
    check_outcome_mixes check_model_specific_config check_minimums check_tiers when check_prior
    check_name note_first note_name check_filter check_offering check_card check_cards
    check_card_list check_rate_cards is_not_above_zero entries check_product_type
    check_product_types check_fields check_maps check_wallet_balance check_archetype
    check_archetypes check_archetype_list check_tenants migrate check_schema_version check_identity
    check_traffic check_unit product_mix_sum check_product_mix sum_of ingestion_paths_sum
    check_rest_batch check_ingestion_paths payload_variation_sum check_payload_variation
    check_negative_paths check_lifecycle check_assertions has_stale_state
    any_archetype_has_stale_states check_cross_field check_payments check_tax check_erp
    check_credit_notes check_wallet check_fx check_chaos is_unknown_jurisdiction find put sucz
demo_passes = refl

run-AreDistinct_example :
    AreDistinct (archetype_names whole in_order demo.tenants.archetypes)
    × All (HasDistinctCards whole in_order) demo.tenants.archetypes
run-AreDistinct_example = run-AreDistinct whole in_order demo demo_passes

abbrev billing_texts : Calculator.Library ℕ
billing_texts = record {
  strings = plain_strings;
  is_null = λ s. false;
  sort_tiers = λ ts. ts;
  sort_bands = λ bs. bs;
}

abbrev ten_events : CalcInputs ℕ
ten_events = record {
  events = 10;
  charge_base_usd = 10;
  outcomes = [];
  aggregation = "COUNT";
  model = per_unit;
  rate = record {
    flat_fee_usd = 0;
    per_unit_rate_usd = 2;
    percentage_rate = 0;
    min_fee_usd = 0;
    included_free_units = 0;
    block_size_units = 0;
    graduated_tiers = [];
    volume_tiers = [];
    outcome_weights = [];
    staircase_bands = [];
  };
  discount = none;
  tax_pct = 0;
  mode = postpaid;
}

run-calculate_example :
    All
      (λ (a : TenantArchetype ℕ).
        All
          (λ (rc : RateCardSpec ℕ).
            (r : CalcResult ℕ) × (calculate whole billing_texts
                (record ten_events { model = billing_model rc.pricing_model })
                0
              ≡ some r))
          a.rate_cards)
      demo.tenants.archetypes
run-calculate_example = run-calculate whole in_order billing_texts demo ten_events 0 demo_passes

steps_pass : check_staircase_bands whole in_order [] steps ≡ []
unfolding check_staircase_bands check_bands_from check_band check_after enumerate report_if
    is_not_finite sucz
steps_pass = refl

check_staircase_bands-covers_example :
    (count (holds 5) steps ≡ 1) ⊎ (count (ends_below 5) steps ≡ length steps)
check_staircase_bands-covers_example =
    check_staircase_bands-covers whole in_order [] steps 5 (Perm.refl _) steps_pass (omega arith)

tiers_pass : validate_tier_band_ordering whole in_order [] tiers ≡ []
unfolding validate_tier_band_ordering check_order report_if
tiers_pass = refl

tiers_from_bands-convert_tier_example :
    map (in_tier 1001) (tiers_from_bands tiers)
    ≡ first_flags (reaches 1001) (map convert_tier tiers)
tiers_from_bands-convert_tier_example =
    tiers_from_bands-convert_tier whole in_order [] tiers 1001 tiers_pass (refl, (refl, tt))
      (omega arith) (omega arith)

-- The demo without what the defaults fill in.
abbrev bare : Scenario ℕ
bare = record demo {
  time_pattern = "";
  payload_variation = record { small_pct = 0; medium_pct = 0; large_pct = 0 };
  tenants = record {
    count = pos 1;
    distribution = "";
    archetypes =
        archetype "small" 1 unit_rate []
        ∷ archetype "large" 0 unit_rate (card "" "" no_rate 0 ∷ card "b" "" no_rate 0 ∷ [])
        ∷ [];
  };
}

abbrev card_name : ℕ → String
card_name n = "card-n"

apply_defaults_idem_example :
    apply_defaults whole card_name (apply_defaults whole card_name bare)
    ≡ apply_defaults whole card_name bare
apply_defaults_idem_example = apply_defaults_idem whole card_name bare refl

abbrev plan_texts : Metrics.Library
plan_texts = record { strings = plain_strings; fold_name = λ s. s; plan_name = λ s. s }

abbrev flat_archetype : TenantArchetype ℕ
flat_archetype = record (archetype "flat" 1 (record no_rate { flat_fee_usd = 20 }) []) {
  pricing_model = "FLAT_RATE";
}

abbrev two_metrics : List ManifestMetric
two_metrics =
    record { id = "m1"; name = "calls"; aggregation_type = "COUNT" }
    ∷ record { id = "m2"; name = "bytes"; aggregation_type = "SUM" }
    ∷ []
