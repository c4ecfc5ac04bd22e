-- ===== src/Scenario/Estimate.antt =====
-- What the billing check makes of a scenario's rates and of the results: convertTiers, resolveTaxPct,
-- modeMatches, relativeDrift and abs of internal/validate/billing_match.go, and its conversion of a pricing
-- model.
use aforo_nextgen_loadgen.Base.{
  ℤ, pos, negsuc, lez, max_int64, ℕ, Bool, true, false, not, ◌&&◌, ◌||◌, String, Option, none, some,
  List, [], ◌∷◌, map, is_key, find, if◌then◌else◌,
}
use aforo_nextgen_loadgen.Base.Floats.{Floats}
use aforo_nextgen_loadgen.Billing.{
  PricingModel, per_unit, flat_rate, percentage, included_quota, graduated, volume_tiered,
  staircase, outcome_based, no_model, Tier, CalcResult,
}
use aforo_nextgen_loadgen.Scenario.Rates.{TierBand, RateConfig}
use aforo_nextgen_loadgen.Scenario.Sections.{Tax}
pub mod Models

-- billing.PricingModel(m)
unfoldable pub billing_model : String → PricingModel
billing_model m =
    if is_key m "PER_UNIT"
    then per_unit
    else if is_key m "FLAT_RATE"
    then flat_rate
    else if is_key m "PERCENTAGE"
    then percentage
    else if is_key m "INCLUDED_QUOTA"
    then included_quota
    else if is_key m "GRADUATED"
    then graduated
    else if is_key m "VOLUME_TIERED"
    then volume_tiered
    else if is_key m "STAIRCASE"
    then staircase
    else if is_key m "OUTCOME_BASED"
    then outcome_based
    else no_model m

-- The bound of a tier: none is math.MaxInt64.
unfoldable pub top_of : ℤ → ℕ
top_of (pos n) = if lez (pos n) (pos 0) then max_int64 else n
top_of (negsuc n) = max_int64

module _ {F : Type 0} where
  unfoldable pub convert_tier : TierBand F → Tier F
  convert_tier t = record {
    up_to_units = top_of t.up_to_units;
    unit_price = t.unit_price_usd;
    flat_fee = t.flat_fee_usd;
  }

  -- The graduated tiers, or the volume tiers where there are none.
  unfoldable pub source_tiers : RateConfig F → List (TierBand F)
  source_tiers r = elim r.graduated_tiers [ [] ↦ r.volume_tiers | t ∷ rest ↦ t ∷ rest ]

  unfoldable pub convert_tiers : RateConfig F → List (Tier F)
  convert_tiers r = map convert_tier (source_tiers r)

-- A bill run's actual result.
pub record BillRunResult (F : Type 0) : Type 0 where
  pub invoiced_usd : F
  pub wallet_debit : F

module _ (fl : Floats) where
  -- 0 - x is -x but for the sign of zero.
  unfoldable pub abs : fl.Float → fl.Float
  abs x = if fl.lt x (fl.of_int 0) then fl.sub (fl.of_int 0) x else x

  -- A nil table has no rate; `currency` is the customer's.
  unfoldable pub resolve_tax_pct : Tax fl.Float → String → fl.Float
  resolve_tax_pct t currency =
      if is_key t.engine "" || is_key t.engine "mock"
      then fl.of_int 0
      else elim (find currency t.jurisdictions) [ none ↦ fl.of_int 0 | some pct ↦ pct ]

  -- abs(x) < 0.01
  unfoldable pub is_small : fl.Float → Bool
  is_small x = fl.lt (abs x) (fl.quot (fl.of_int 1) (fl.of_int 100))

  unfoldable pub mode_matches : String → CalcResult fl.Float → BillRunResult fl.Float → Bool
  mode_matches mode expected actual =
      if is_key mode "POSTPAID"
      then is_small actual.wallet_debit && is_small (fl.sub actual.invoiced_usd expected.total)
      else if is_key mode "PREPAID"
      then is_small (fl.sub actual.wallet_debit expected.total) && is_small actual.invoiced_usd
      else if is_key mode "HYBRID"
      then is_small (fl.sub (fl.add actual.wallet_debit actual.invoiced_usd) expected.total)
      else false

  -- `infinity` is math.Inf(1).
  unfoldable pub relative_drift : fl.Float → fl.Float → fl.Float → fl.Float
  relative_drift infinity expected actual =
      if fl.eq expected (fl.of_int 0)
      then if fl.eq actual (fl.of_int 0) then fl.of_int 0 else infinity
      else fl.quot (abs (fl.sub expected actual)) (abs expected)
