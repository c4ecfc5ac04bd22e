-- ===== src/Scenario/Rates.antt =====
-- The rates of a scenario (internal/scenario/types.go). A pricing model, a billing mode and a product type
-- are texts, as in the source, since a file may hold any.
use aforo_nextgen_loadgen.Base.{ℤ, String, Option, List}

pub record TierBand (F : Type 0) : Type 0 where
  pub up_to_units : ℤ
  pub unit_price_usd : F
  pub flat_fee_usd : F

pub record StaircaseBand (F : Type 0) : Type 0 where
  pub from_units : ℤ
  pub to_units : ℤ
  pub price_usd : F

pub record RateConfig (F : Type 0) : Type 0 where
  pub flat_fee_usd : F
  pub per_unit_rate_usd : F
  pub percentage_rate : F
  pub charge_base_per_event_usd : F
  pub min_fee_usd : F
  pub included_free_units : ℤ
  pub block_size_units : ℤ
  pub graduated_tiers : List (TierBand F)
  pub volume_tiers : List (TierBand F)
  pub wallet_initial_balance_usd : F
  pub trial_days : ℤ
  pub outcome_weights : List (String × F)
  pub staircase_bands : List (StaircaseBand F)

pub record MetricOverride (F : Type 0) : Type 0 where
  pub pricing_model : String
  pub per_unit_rate_usd : F
  pub percentage_rate : F
  pub min_fee_usd : F
  pub included_free_units : ℤ
  pub block_size_units : ℤ
  pub flat_fee_usd : F
  pub graduated_tiers : List (TierBand F)
  pub volume_tiers : List (TierBand F)
  pub outcome_weights : List (String × F)
  pub staircase_bands : List (StaircaseBand F)

pub record OfferingSpec : Type 0 where
  pub name : String
  pub currency : String
  pub billing_mode : String
  pub trial_days : ℤ

-- `none` is a nil map.
pub record RateCardSpec (F : Type 0) : Type 0 where
  pub name : String
  pub pricing_model : String
  pub billing_mode : String
  pub rate_config : RateConfig F
  pub metric_configs : Option (List (String × MetricOverride F))
  pub dimension_pricing : Option (List (String × F))
  pub product_filter : List String
  pub offerings : List OfferingSpec
  pub customer_share : F

pub record TenantArchetype (F : Type 0) : Type 0 where
  pub name : String
  pub weight : F
  pub pricing_model : String
  pub billing_mode : String
  pub product_types : List String
  pub customer_count : ℤ
  pub currency_mix : List (String × F)
  pub subscription_state_mix : List (String × F)
  pub discount_mix : List (String × F)
  pub rate_config : RateConfig F
  pub products_per_type : ℤ
  pub metric_configs : Option (List (String × MetricOverride F))
  pub dimension_pricing : Option (List (String × F))
  pub rate_cards : List (RateCardSpec F)
