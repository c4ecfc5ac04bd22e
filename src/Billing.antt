-- ===== src/Billing.antt =====
-- What an invoice should come to: internal/validate/billing. Counts of events and units are not
-- negative here, as the load generator never sends corrections.
use aforo_nextgen_loadgen.Base.{ℕ, Bool, true, false, String, Option, List}
pub mod Tiers
pub mod Linear
pub mod Outcomes
pub mod Stages
pub mod Calculator

pub data PricingModel : Type 0 where
  per_unit flat_rate percentage included_quota graduated volume_tiered staircase : PricingModel
  outcome_based : PricingModel
  no_model : String → PricingModel

pub data Mode : Type 0 where
  postpaid prepaid hybrid : Mode
  no_mode : String → Mode

-- A bound below zero counts as zero.
pub record Tier (F : Type 0) : Type 0 where
  pub up_to_units : ℕ
  pub unit_price : F
  pub flat_fee : F

-- The bounds of a band are not negative: the validator of scenarios reports a band with one below zero.
pub record Band (F : Type 0) : Type 0 where
  pub from : ℕ
  pub to : ℕ
  pub price : F

pub record RateConfig (F : Type 0) : Type 0 where
  pub flat_fee_usd : F
  pub per_unit_rate_usd : F
  pub percentage_rate : F
  pub min_fee_usd : F
  pub included_free_units : ℕ
  pub block_size_units : ℕ
  pub graduated_tiers : List (Tier F)
  pub volume_tiers : List (Tier F)
  pub outcome_weights : List (String × F)
  pub staircase_bands : List (Band F)

pub record Discount (F : Type 0) : Type 0 where
  pub kind : String
  pub value : F

pub record OutcomeUsage (F : Type 0) : Type 0 where
  pub status : String
  pub quantity : F
  pub event_count : F

pub record CalcInputs (F : Type 0) : Type 0 where
  pub events : ℕ
  pub charge_base_usd : F
  pub outcomes : List (OutcomeUsage F)
  pub aggregation : String
  pub model : PricingModel
  pub rate : RateConfig F
  pub discount : Option (Discount F)
  pub tax_pct : F
  pub mode : Mode

pub record TierCharge (F : Type 0) : Type 0 where
  pub from : ℕ
  pub to : ℕ
  pub units : ℕ
  pub unit_price : F
  pub flat_fee : F
  pub charge : F

pub record CalcResult (F : Type 0) : Type 0 where
  pub subtotal : F
  pub discount_amount : F
  pub taxable : F
  pub tax_amount : F
  pub total : F
  pub wallet_debit : F
  pub invoice_usd : F
  pub tier_breakdown : List (TierCharge F)
  pub stage_order : List String
