-- ===== src/Scenario/RateCards.antt =====
-- The checks of the rate cards of an archetype: checkRateCards of internal/scenario/validator.go.
use aforo_nextgen_loadgen.Base.{
  ℤ, pos, ltz, ℕ, zero, Bool, true, false, not, ◌&&◌, ◌||◌, String, Option, none, some, List, [],
  ◌∷◌, ◌++◌, length, find, put, is_key, ◌==◌, suc, if◌then◌else◌,
}
use aforo_nextgen_loadgen.Base.Floats.{Floats}
use aforo_nextgen_loadgen.Scenario.Models.{check_minimums}
use aforo_nextgen_loadgen.Scenario.Rates.{OfferingSpec, RateCardSpec, TenantArchetype}
use aforo_nextgen_loadgen.Scenario.Names.{
  is_one_of, is_valid_pricing_model, is_valid_billing_mode, is_valid_product_type,
}
use aforo_nextgen_loadgen.Scenario.Report.{
  Rule, required, duplicate, unknown_kind, not_in_unit, not_in_product_types, not_a_currency,
  negative, sum_not_one, no_rate_cards, Violation, Library, in_turn, report_if, check_each,
  is_off_unit, weights_approx_one,
}
pub mod Distinct

unfoldable pub check_prior : List String → Option ℕ → List Violation
check_prior at (some prior) = report_if true at duplicate
check_prior at none = []

-- A name against those seen so far, with the index at which each was first seen.
unfoldable pub check_name : List String → List (String × ℕ) → String → List Violation
check_name at seen name =
    if is_key name "" then report_if true at required else check_prior at (find name seen)

unfoldable pub note_first : List (String × ℕ) → ℕ → String → Option ℕ → List (String × ℕ)
note_first seen i name (some prior) = seen
note_first seen i name none = put name i seen

unfoldable pub note_name : List (String × ℕ) → ℕ → String → List (String × ℕ)
note_name seen i name = if is_key name "" then seen else note_first seen i name (find name seen)

module _ (fl : Floats) (lib : Library fl.Float) where
  unfoldable pub check_filter : List String → List String → ℕ → String → List Violation
  check_filter card types j pt =
      let at = card ++ "product_filter" ∷ lib.index_seg j ∷ [] in
      elim (is_valid_product_type pt) [
        | false ↦ report_if true at unknown_kind
        | true ↦ report_if (not (is_one_of types pt)) at not_in_product_types
      ]

  unfoldable pub check_offering : List String → ℕ → OfferingSpec → List Violation
  check_offering card j off =
      let at = card ++ "offerings" ∷ lib.index_seg j ∷ [] in
      report_if (not (is_key off.currency "") && not (length (lib.bytes off.currency) == 3))
        (at ++ "currency" ∷ []) not_a_currency
      ++ report_if
          (not (is_key off.billing_mode "") && not (is_valid_billing_mode off.billing_mode))
          (at ++ "billing_mode" ∷ []) unknown_kind
      ++ report_if (ltz off.trial_days (pos 0)) (at ++ "trial_days" ∷ []) negative

  -- The body of the loop on the cards, but for the name.
  unfoldable pub check_card : List String → List String → RateCardSpec fl.Float → List Violation
  check_card at types rc = in_turn (
      report_if (not (is_valid_pricing_model rc.pricing_model)) (at ++ "pricing_model" ∷ [])
        unknown_kind
      ∷ report_if (not (is_key rc.billing_mode "") && not (is_valid_billing_mode rc.billing_mode))
          (at ++ "billing_mode" ∷ []) unknown_kind
      ∷ report_if (is_off_unit fl rc.customer_share) (at ++ "customer_share" ∷ []) not_in_unit
      ∷ check_each (check_filter at types) 0 rc.product_filter
      ∷ check_minimums fl lib at rc.pricing_model rc.rate_config
      ∷ check_each (check_offering at) 0 rc.offerings
      ∷ [])

  -- The loop from card `i` on, and the check of the sum of the shares after it.
  unfoldable pub check_cards :
      List String
      → List String
      → List (String × ℕ)
      → fl.Float
      → ℕ
      → List (RateCardSpec fl.Float)
      → List Violation
  check_cards path types seen sum i [] =
      report_if (not (weights_approx_one fl sum)) path sum_not_one
  check_cards path types seen sum i (rc ∷ rest) =
      let at = path ++ lib.index_seg i ∷ [] in
      check_name (at ++ "name" ∷ []) seen rc.name
      ++ check_card at types rc
      ++ check_cards path types (note_name seen i rc.name) (fl.add sum rc.customer_share) (suc i)
          rest

  unfoldable pub check_card_list :
      List String → List String → List (RateCardSpec fl.Float) → List Violation
  check_card_list path types [] = report_if true path no_rate_cards
  check_card_list path types (rc ∷ rest) = check_cards path types [] (fl.of_int 0) 0 (rc ∷ rest)

  unfoldable pub check_rate_cards : List String → TenantArchetype fl.Float → List Violation
  check_rate_cards path a = check_card_list path a.product_types a.rate_cards
