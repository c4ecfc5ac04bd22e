-- ===== src/Seed/RatePlans/Metrics.antt =====
-- The config of one metric of a rate plan: applyArchetypeRateConfig, applyMetricOverride and the functions that
-- they call (internal/seed/rateplans.go).
use aforo_nextgen_loadgen.Base.{
  ℤ, pos, ltz, ℕ, suc, Bool, String, Option, none, some, List, [], ◌∷◌, put, is_key, if◌then◌else◌,
}
use aforo_nextgen_loadgen.Base.Floats.{Floats}
use aforo_nextgen_loadgen.Lifecycle.Wire.{Strings, normal}
use aforo_nextgen_loadgen.Scenario.Names.{is_one_of}
use aforo_nextgen_loadgen.Scenario.Rates.{StaircaseBand, RateConfig, MetricOverride}
use aforo_nextgen_loadgen.Seed.RatePlans.{RateTierRequest, tiers_from_bands}

-- The fields of a metric of the manifest that the plan uses.
pub record ManifestMetric : Type 0 where
  pub id : String
  pub name : String
  pub aggregation_type : String

-- The timing is "ARREARS" for all. `none` is a nil rate.
pub record MetricConfigRequest (F : Type 0) : Type 0 where
  pub metric_id : String
  pub metric_name : String
  pub model : String
  pub rate : Option F
  pub included_free : ℤ
  pub block_size : ℤ
  pub min_fee : F
  pub tiers : List (RateTierRequest F)
  pub ov_behavior : String
  pub outcome_weights : List (String × F)

-- What the request takes from Go's libraries; `fold_name` is ToLower after TrimSpace.
pub record Library : Type 0 where
  pub strings : Strings
  pub fold_name : String → String
  pub plan_name : String → String

-- A Go switch on a text.
unfoldable pub switch : {A : Type 0} → String → List (String × A) → A → A
switch m [] other = other
switch m ((k, x) ∷ cases) other =
    let later = switch m cases other in if is_key m k then x else later

module _ (fl : Floats) (lib : Library) where
  -- math.Round(fraction*100*1e6) / 1e6
  unfoldable pub percent_of : fl.Float → fl.Float
  percent_of x =
      fl.quot (fl.round (fl.mul (fl.mul x (fl.of_int 100)) (fl.of_int 1000000))) (fl.of_int 1000000)

  unfoldable pub outcome_weightable : String → Bool
  outcome_weightable aggregation =
      is_one_of ("" ∷ "SUM" ∷ "COUNT" ∷ []) (normal lib.strings aggregation)

  unfoldable pub apply_linear :
      MetricConfigRequest fl.Float → fl.Float → ℤ → ℤ → fl.Float → MetricConfigRequest fl.Float
  apply_linear mc rate free block min_fee = record mc {
    rate = some rate;
    included_free = (if ltz (pos 0) free then free else mc.included_free);
    block_size = (if ltz (pos 0) block then block else mc.block_size);
    min_fee = (if fl.lt (fl.of_int 0) min_fee then min_fee else mc.min_fee);
  }

  unfoldable pub tiers_from_staircase :
      ℕ → List (StaircaseBand fl.Float) → List (RateTierRequest fl.Float)
  tiers_from_staircase i [] = []
  tiers_from_staircase i (b ∷ rest) =
      record {
        tier_start = b.from_units;
        tier_end = (if ltz (pos 0) b.to_units then some b.to_units else none);
        unit_price = fl.of_int 0;
        flat_fee = b.price_usd;
        sort_order = i;
      }
      ∷ tiers_from_staircase (suc i) rest

  unfoldable pub apply_staircase :
      MetricConfigRequest fl.Float
      → List (StaircaseBand fl.Float)
      → ℤ
      → MetricConfigRequest fl.Float
  apply_staircase mc bands free = record mc {
    tiers = tiers_from_staircase 0 bands;
    included_free = (if ltz (pos 0) free then free else mc.included_free);
  }

  unfoldable pub upper_case_weights : List (String × fl.Float) → List (String × fl.Float)
  upper_case_weights weights = upper_into [] weights
    where
      upper_into : List (String × fl.Float) → List (String × fl.Float) → List (String × fl.Float)
      upper_into out [] = out
      upper_into out ((k, v) ∷ rest) = upper_into (put (normal lib.strings k) v out) rest

  unfoldable pub apply_outcome :
      MetricConfigRequest fl.Float → List (String × fl.Float) → MetricConfigRequest fl.Float
  apply_outcome mc weights = record mc { outcome_weights = upper_case_weights weights }

  unfoldable pub apply_percentage :
      MetricConfigRequest fl.Float → fl.Float → fl.Float → MetricConfigRequest fl.Float
  apply_percentage mc rate min_fee = record mc {
    rate = some (percent_of rate);
    min_fee = (if fl.lt (fl.of_int 0) min_fee then min_fee else mc.min_fee);
  }

  unfoldable pub apply_quota :
      MetricConfigRequest fl.Float → fl.Float → ℤ → ℤ → MetricConfigRequest fl.Float
  apply_quota mc rate free block = record mc {
    included_free = free;
    rate = some rate;
    block_size = (if ltz (pos 0) block then block else mc.block_size);
    ov_behavior = "CHARGE";
  }

  unfoldable pub apply_archetype_rate_config :
      MetricConfigRequest fl.Float → String → RateConfig fl.Float → MetricConfigRequest fl.Float
  apply_archetype_rate_config mc model rc =
      let linear =
        apply_linear mc rc.per_unit_rate_usd rc.included_free_units rc.block_size_units
          rc.min_fee_usd in
      switch model
        (("FLAT_RATE", record mc { rate = some rc.flat_fee_usd })
          ∷ ("PER_UNIT", linear)
          ∷ ("OUTCOME_BASED", apply_outcome linear rc.outcome_weights)
          ∷ ("PERCENTAGE", apply_percentage mc rc.percentage_rate rc.min_fee_usd)
          ∷ (
            "INCLUDED_QUOTA",
            apply_quota mc rc.per_unit_rate_usd rc.included_free_units rc.block_size_units,
          )
          ∷ ("GRADUATED", record mc { tiers = tiers_from_bands rc.graduated_tiers })
          ∷ ("VOLUME_TIERED", record mc { tiers = tiers_from_bands rc.volume_tiers })
          ∷ ("STAIRCASE", apply_staircase mc rc.staircase_bands rc.included_free_units)
          ∷ [])
        mc

  -- The cases of applyMetricOverride but for FLAT_RATE.
  unfoldable pub apply_rated_override :
      MetricConfigRequest fl.Float → MetricOverride fl.Float → MetricConfigRequest fl.Float
  apply_rated_override mc ov =
      let model = ov.pricing_model in
      let linear =
        apply_linear mc ov.per_unit_rate_usd ov.included_free_units ov.block_size_units
          ov.min_fee_usd in
      switch model
        (("PER_UNIT", linear)
          ∷ ("OUTCOME_BASED", apply_outcome linear ov.outcome_weights)
          ∷ ("STAIRCASE", apply_staircase mc ov.staircase_bands ov.included_free_units)
          ∷ ("PERCENTAGE", apply_percentage mc ov.percentage_rate ov.min_fee_usd)
          ∷ (
            "INCLUDED_QUOTA",
            apply_quota mc ov.per_unit_rate_usd ov.included_free_units ov.block_size_units,
          )
          ∷ ("GRADUATED", record mc { tiers = tiers_from_bands ov.graduated_tiers })
          ∷ ("VOLUME_TIERED", record mc { tiers = tiers_from_bands ov.volume_tiers })
          ∷ [])
        mc

  unfoldable pub apply_metric_override :
      MetricConfigRequest fl.Float → MetricOverride fl.Float → MetricConfigRequest fl.Float
  apply_metric_override mc ov =
      if is_key ov.pricing_model "FLAT_RATE"
      then record mc { model = "PER_UNIT"; rate = some (fl.of_int 0) }
      else apply_rated_override mc ov
