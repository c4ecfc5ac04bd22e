-- ===== src/Scenario/Bands.antt =====
-- The checks of tiers and bands: validateTierBandOrdering of internal/scenario/validator.go, and
-- checkStaircaseBands of validator_outcomes.go.
use aforo_nextgen_loadgen.Base.{
  ℤ, pos, negsuc, lez, ltz, eqz, sucz, ℕ, zero, suc, Bool, true, false, not, ◌&&◌, ◌||◌, String,
  Option, none, some, List, [], ◌∷◌, ◌++◌, if◌then◌else◌,
}
use aforo_nextgen_loadgen.Base.Floats.{Floats}
use aforo_nextgen_loadgen.Scenario.Rates.{TierBand, StaircaseBand}
use aforo_nextgen_loadgen.Scenario.Report.{
  Rule, required, not_positive, negative, not_ascending, open_not_last, not_from_zero, below_from,
  not_contiguous, Violation, Library, report_if, is_not_finite,
}
pub mod Ascent
pub mod Stairs
pub mod Cover

abbrev pub is_empty {ℓ} : {A : Type ℓ} → List A → Bool
is_empty [] = true
is_empty (x ∷ xs) = false

module _ (fl : Floats) (lib : Library fl.Float) where
  -- The loop from index `i` on, after a tier up to `prev`.
  unfoldable pub check_order : List String → ℤ → ℕ → List (TierBand fl.Float) → List Violation
  unfolding report_if
  check_order path prev i [] = []
  check_order path prev i (b ∷ rest) =
      let at = path ++ lib.index_seg i ∷ "up_to_units" ∷ [] in
      let after_open = check_order path prev (suc i) rest in
      let after_bound = check_order path b.up_to_units (suc i) rest in
      if eqz b.up_to_units (pos 0)
      then report_if (not (is_empty rest)) at open_not_last ++ after_open
      else report_if (lez b.up_to_units prev) at not_ascending ++ after_bound

  unfoldable pub validate_tier_band_ordering :
      List String → List (TierBand fl.Float) → List Violation
  unfolding check_order
  validate_tier_band_ordering path bands = check_order path (negsuc 0) 0 bands

  unfoldable pub enumerate : ℕ → List (StaircaseBand fl.Float) → List (ℕ × StaircaseBand fl.Float)
  enumerate i [] = []
  enumerate i (b ∷ rest) = (i, b) ∷ enumerate (suc i) rest

  -- What is asked of a band with the one before it.
  unfoldable pub check_after :
      List String → Option (StaircaseBand fl.Float) → StaircaseBand fl.Float → List Violation
  unfolding report_if
  check_after at none b = report_if (ltz (pos 1) b.from_units) at not_from_zero
  check_after at (some prev) b =
      report_if (not (eqz prev.to_units (pos 0)) && not (eqz b.from_units (sucz prev.to_units))) at
        not_contiguous

  -- The body of the loop. The order of the reports of one band is not kept.
  unfoldable pub check_band :
      List String
      → Option (StaircaseBand fl.Float)
      → Bool
      → ℕ
      → StaircaseBand fl.Float
      → List Violation
  unfolding report_if check_after is_not_finite
  check_band path prev is_last i b =
      let p = path ++ lib.index_seg i ∷ [] in
      report_if (is_not_finite fl b.price_usd || fl.le b.price_usd (fl.of_int 0))
        (p ++ "price_usd" ∷ []) not_positive
      ++ report_if (ltz b.from_units (pos 0)) (p ++ "from_units" ∷ []) negative
      ++ check_after (p ++ "from_units" ∷ []) prev b
      ++ (if eqz b.to_units (pos 0)
          then report_if (not is_last) (p ++ "to_units" ∷ []) open_not_last
          else report_if (ltz b.to_units b.from_units) (p ++ "to_units" ∷ []) below_from)

  unfoldable pub check_bands_from :
      List String
      → Option (StaircaseBand fl.Float)
      → List (ℕ × StaircaseBand fl.Float)
      → List Violation
  unfolding check_band
  check_bands_from path prev [] = []
  check_bands_from path prev ((i, b) ∷ rest) =
      check_band path prev (is_empty rest) i b ++ check_bands_from path (some b) rest

  unfoldable pub check_staircase_bands :
      List String → List (StaircaseBand fl.Float) → List Violation
  unfolding check_bands_from enumerate report_if
  check_staircase_bands path [] = report_if true path required
  check_staircase_bands path (b ∷ bands) =
      check_bands_from path none (lib.sort_order (enumerate 0 (b ∷ bands)))
