-- ===== src/Seed/RatePlans/Request.antt =====
-- The body that creates a rate plan: buildRatePlanRequest of internal/seed/rateplans.go and the functions that
-- it calls.
use aforo_nextgen_loadgen.Base.{
  ℤ, pos, ltz, ℕ, suc, Bool, true, false, not, ◌&&◌, ◌||◌, String, Option, none, some, List, [],
  ◌∷◌, find, put, is_key, if◌then◌else◌,
}
use aforo_nextgen_loadgen.Base.Floats.{Floats}
use aforo_nextgen_loadgen.Lifecycle.Wire.{Strings, normal}
use aforo_nextgen_loadgen.Scenario.Archetypes.{entries}
use aforo_nextgen_loadgen.Scenario.Bands.{is_empty}
use aforo_nextgen_loadgen.Scenario.Names.{is_one_of}
use aforo_nextgen_loadgen.Scenario.Rates.{
  StaircaseBand, RateConfig, MetricOverride, TenantArchetype,
}
use aforo_nextgen_loadgen.Seed.RatePlans.{RateTierRequest, tiers_from_bands}
use aforo_nextgen_loadgen.Seed.RatePlans.Metrics.{
  ManifestMetric, MetricConfigRequest, Library, outcome_weightable, apply_archetype_rate_config,
  apply_metric_override,
}
pub mod FlatFee

-- Without the description.
pub record RatePlanCreateRequest (F : Type 0) : Type 0 where
  pub name : String
  pub pricing_model : String
  pub currency : String
  pub base_fee : F
  pub dimension_pricing : List (String × F)
  pub product_ids : List String
  pub metric_configs : List (MetricConfigRequest F)

module _ (fl : Floats) (lib : Library) where
  -- The overrides by the folded name of their metric.
  unfoldable pub fold_overrides :
      List (String × MetricOverride fl.Float)
      → List (String × MetricOverride fl.Float)
      → List (String × MetricOverride fl.Float)
  fold_overrides out [] = out
  fold_overrides out ((k, v) ∷ rest) = fold_overrides (put (lib.fold_name k) v out) rest

  -- A metric's config as it starts.
  unfoldable pub blank_config : ManifestMetric → String → MetricConfigRequest fl.Float
  blank_config m model = record {
    metric_id = m.id;
    metric_name = m.name;
    model = model;
    rate = none;
    included_free = pos 0;
    block_size = pos 0;
    min_fee = fl.of_int 0;
    tiers = [];
    ov_behavior = "";
    outcome_weights = [];
  }

  -- OUTCOME_BASED needs a metric that is a sum or a count.
  unfoldable pub model_for : TenantArchetype fl.Float → ManifestMetric → String
  model_for a m =
      if is_key a.pricing_model "OUTCOME_BASED"
        && not (outcome_weightable fl lib m.aggregation_type)
      then "PER_UNIT"
      else a.pricing_model

  -- The config of a metric without an override; `flat_assigned` tells whether the flat fee is assigned.
  unfoldable pub plain_config :
      TenantArchetype fl.Float → Bool → ManifestMetric → MetricConfigRequest fl.Float
  plain_config a flat_assigned m =
      let model = model_for a m in
      if is_key model "FLAT_RATE" && flat_assigned
      then record (blank_config m "PER_UNIT") { rate = some (fl.of_int 0) }
      else apply_archetype_rate_config fl lib (blank_config m model) model a.rate_config

  -- The loop on the metrics.
  unfoldable pub configs_for :
      TenantArchetype fl.Float
      → List (String × MetricOverride fl.Float)
      → Bool
      → List ManifestMetric
      → List (MetricConfigRequest fl.Float)
  configs_for a overrides flat_assigned [] = []
  configs_for a overrides flat_assigned (m ∷ rest) =
      let still = configs_for a overrides flat_assigned rest in
      let assigned =
        configs_for a overrides (flat_assigned || is_key (model_for a m) "FLAT_RATE") rest in
      elim (find (lib.fold_name m.name) overrides) [
        | some ov ↦ apply_metric_override fl lib (blank_config m ov.pricing_model) ov ∷ still
        | none ↦ plain_config a flat_assigned m ∷ assigned
      ]

  unfoldable pub plan_metrics : TenantArchetype fl.Float → List ManifestMetric → List ManifestMetric
  plan_metrics a metrics =
      if is_empty metrics && not (is_key a.pricing_model "FLAT_RATE")
      then record { id = "missing-metric"; name = ""; aggregation_type = "" } ∷ []
      else metrics

  unfoldable pub build_rate_plan_request :
      TenantArchetype fl.Float → List String → List ManifestMetric → RatePlanCreateRequest fl.Float
  build_rate_plan_request a product_ids metrics = record {
    name = lib.plan_name a.name;
    pricing_model = a.pricing_model;
    currency = "USD";
    base_fee =
        (if is_key a.pricing_model "FLAT_RATE" && is_empty metrics
          then a.rate_config.flat_fee_usd
          else fl.of_int 0);
    dimension_pricing = entries a.dimension_pricing;
    product_ids = product_ids;
    metric_configs =
        configs_for a (fold_overrides [] (entries a.metric_configs)) false (plan_metrics a metrics);
  }
