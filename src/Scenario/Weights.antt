-- ===== src/Scenario/Weights.antt =====
-- The checks of maps of weights: checkWeightMap and checkSubscriptionStateMix of
-- internal/scenario/validator.go, checkOutcomeWeights and checkOutcomeMix of validator_outcomes.go.
use aforo_nextgen_loadgen.Base.{
  Bool, true, false, not, ◌&&◌, ◌||◌, String, none, some, List, [], ◌∷◌, ◌++◌, find, put, is_key,
  if◌then◌else◌,
}
use aforo_nextgen_loadgen.Base.Floats.{Floats}
use aforo_nextgen_loadgen.Lifecycle.Wire.{normal}
use aforo_nextgen_loadgen.Scenario.Names.{
  is_valid_subscription_state, is_execution_status, is_valid_product_type,
}
use aforo_nextgen_loadgen.Scenario.Report.{
  required, unknown_kind, duplicate, not_in_unit, sum_not_one, not_a_status, all_zero, Violation,
  Library, report_if, check_entries, is_off_unit, weights_approx_one, is_not_finite, add_weights,
}

module _ (fl : Floats) (lib : Library fl.Float) where
  unfoldable pub check_weight : List String → String → fl.Float → List Violation
  unfolding report_if is_off_unit
  check_weight path k w =
      report_if (is_key k "") path required
      ++ report_if (is_off_unit fl w) (path ++ k ∷ []) not_in_unit

  unfoldable pub check_weight_map : List String → List (String × fl.Float) → Bool → List Violation
  unfolding check_entries check_weight report_if weights_approx_one add_weights
  check_weight_map path [] is_required = report_if is_required path required
  check_weight_map path (e ∷ mix) is_required =
      check_entries (check_weight path) (e ∷ mix)
      ++ report_if (not (weights_approx_one fl (add_weights fl (fl.of_int 0) (e ∷ mix)))) path
          sum_not_one

  unfoldable pub check_state_weight : List String → String → fl.Float → List Violation
  unfolding report_if is_off_unit is_valid_subscription_state
  check_state_weight path state w =
      report_if (not (is_valid_subscription_state state)) (path ++ state ∷ []) unknown_kind
      ++ report_if (is_off_unit fl w) (path ++ state ∷ []) not_in_unit

  unfoldable pub check_subscription_state_mix :
      List String → List (String × fl.Float) → List Violation
  unfolding check_entries check_state_weight report_if weights_approx_one add_weights
  check_subscription_state_mix path [] = []
  check_subscription_state_mix path (e ∷ mix) =
      check_entries (check_state_weight path) (e ∷ mix)
      ++ report_if (not (weights_approx_one fl (add_weights fl (fl.of_int 0) (e ∷ mix)))) path
          sum_not_one

  -- The key of a status, against those seen so far: a map from the normal form to the key.
  unfoldable pub check_status : List String → List (String × String) → String → List Violation
  unfolding report_if is_execution_status
  check_status p seen k = elim (is_execution_status lib.strings k) [
    | false ↦ report_if true p not_a_status
    | true ↦ elim (find (normal lib.strings k) seen) [
      | some prior ↦ report_if true p duplicate
      | none ↦ []
    ]
  ]

  unfoldable pub note_status : List (String × String) → String → List (String × String)
  unfolding is_execution_status
  note_status seen k = elim (is_execution_status lib.strings k) [
    | false ↦ seen
    | true ↦ elim (find (normal lib.strings k) seen) [
      | some prior ↦ seen
      | none ↦ put (normal lib.strings k) k seen
    ]
  ]

  unfoldable pub is_bad_share : fl.Float → Bool
  unfolding is_not_finite is_off_unit
  is_bad_share w = is_not_finite fl w || is_off_unit fl w

  -- The loop of checkOutcomeWeights; `any_positive` is what it has found so far.
  unfoldable pub check_statuses :
      List String → List (String × String) → Bool → List (String × fl.Float) → List Violation
  unfolding report_if check_status note_status is_bad_share
  check_statuses path seen any_positive [] = report_if (not any_positive) path all_zero
  check_statuses path seen any_positive ((k, w) ∷ rest) =
      check_status (path ++ k ∷ []) seen k
      ++ report_if (is_bad_share w) (path ++ k ∷ []) not_in_unit
      ++ check_statuses path (note_status seen k)
          (any_positive || (not (is_bad_share w) && fl.lt (fl.of_int 0) w)) rest

  unfoldable pub check_outcome_weights : List String → List (String × fl.Float) → List Violation
  unfolding check_statuses report_if
  check_outcome_weights path [] = report_if true path required
  check_outcome_weights path (e ∷ weights) =
      check_statuses path [] false (lib.sort_weights (e ∷ weights))

  unfoldable pub check_shares :
      List String → List (String × String) → fl.Float → List (String × fl.Float) → List Violation
  unfolding report_if check_status note_status is_bad_share weights_approx_one
  check_shares path seen sum [] = report_if (not (weights_approx_one fl sum)) path sum_not_one
  check_shares path seen sum ((k, w) ∷ rest) =
      check_status (path ++ k ∷ []) seen k
      ++ report_if (is_bad_share w) (path ++ k ∷ []) not_in_unit
      ++ check_shares path (note_status seen k) (if is_bad_share w then sum else fl.add sum w) rest

  unfoldable pub check_outcome_mix : List String → List (String × fl.Float) → List Violation
  unfolding check_shares
  check_outcome_mix path [] = []
  check_outcome_mix path (e ∷ mix) = check_shares path [] (fl.of_int 0) (lib.sort_weights (e ∷ mix))

  unfoldable pub check_product_mix_entry : String → List (String × fl.Float) → List Violation
  unfolding report_if check_outcome_mix is_valid_product_type
  check_product_mix_entry pt mix =
      let p = "outcome_mix_by_product" ∷ pt ∷ [] in
      elim (is_valid_product_type pt) [
        | false ↦ report_if true p unknown_kind
        | true ↦ elim mix [
          | [] ↦ report_if true p required
          | e ∷ rest ↦ check_outcome_mix p (e ∷ rest)
        ]
      ]

  unfoldable pub check_outcome_mixes :
      List (String × fl.Float) → List (String × List (String × fl.Float)) → List Violation
  unfolding check_outcome_mix check_entries check_product_mix_entry
  check_outcome_mixes mix by_product =
      check_outcome_mix ("outcome_mix" ∷ []) mix
      ++ check_entries check_product_mix_entry (lib.sort_mixes by_product)
