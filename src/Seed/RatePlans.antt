-- ===== src/Seed/RatePlans.antt =====
-- The tiers of a rate plan as they are sent to the platform: tiersFromBands of internal/seed/rateplans.go.
use aforo_nextgen_loadgen.Base.{
  ℤ, pos, lez, ltz, sucz, ℕ, suc, Bool, true, false, ◌&&◌, Option, none, some, List, [], ◌∷◌,
  if◌then◌else◌,
}
use aforo_nextgen_loadgen.Scenario.Rates.{TierBand}
pub mod Agreement
pub mod Metrics
pub mod Request

-- `none` is a nil tierEnd, which is sent as null.
pub record RateTierRequest (F : Type 0) : Type 0 where
  pub tier_start : ℤ
  pub tier_end : Option ℤ
  pub unit_price : F
  pub flat_fee : F
  pub sort_order : ℕ

module _ {F : Type 0} where
  -- The body of the loop.
  unfoldable pub tier_from_band : ℤ → ℕ → TierBand F → RateTierRequest F
  tier_from_band prev_end i b = record {
    tier_start = sucz prev_end;
    tier_end = (if ltz (pos 0) b.up_to_units then some b.up_to_units else none);
    unit_price = b.unit_price_usd;
    flat_fee = b.flat_fee_usd;
    sort_order = i;
  }

  -- The loop from band `i` on, after bands up to `prev_end`.
  unfoldable pub tiers_from : ℤ → ℕ → List (TierBand F) → List (RateTierRequest F)
  tiers_from prev_end i [] = []
  tiers_from prev_end i (b ∷ rest) =
      tier_from_band prev_end i b
      ∷ tiers_from (if ltz (pos 0) b.up_to_units then b.up_to_units else prev_end) (suc i) rest

  unfoldable pub tiers_from_bands : List (TierBand F) → List (RateTierRequest F)
  tiers_from_bands bands = tiers_from (pos 0) 0 bands
