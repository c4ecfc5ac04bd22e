-- ===== src/Scenario/Archetypes.antt =====
-- The checks of the tenants and their archetypes: checkTenants of internal/scenario/validator.go.
use aforo_nextgen_loadgen.Base.{
  pos, lez, ltz, ℕ, suc, true, false, not, ◌||◌, String, Option, none, some, List, [], ◌∷◌, ◌++◌,
  is_key,
}
use aforo_nextgen_loadgen.Base.Floats.{Floats}
use aforo_nextgen_loadgen.Scenario.Models.{
  check_metric_config, check_minimums, is_not_above_zero, when,
}
use aforo_nextgen_loadgen.Scenario.Rates.{TenantArchetype}
use aforo_nextgen_loadgen.Scenario.RateCards.{check_name, note_name, check_rate_cards}
use aforo_nextgen_loadgen.Scenario.Sections.{Tenants}
use aforo_nextgen_loadgen.Scenario.Names.{
  is_one_of, is_valid_pricing_model, is_valid_billing_mode, is_valid_product_type,
}
use aforo_nextgen_loadgen.Scenario.Report.{
  required, unknown_kind, not_in_unit, not_positive, negative, above_cap, not_finite, needs_wallet,
  sum_not_one, Violation, Library, in_turn, report_if, check_each, check_entries, is_off_unit,
  is_not_finite, weights_approx_one,
}
use aforo_nextgen_loadgen.Scenario.Weights.{check_weight_map, check_subscription_state_mix}

-- The entries of a map that may be nil.
unfoldable pub entries : {A : Type 0} → Option (List (String × A)) → List (String × A)
entries none = []
entries (some m) = m

module _ (fl : Floats) (lib : Library fl.Float) where
  unfoldable pub check_product_type : List String → ℕ → String → List Violation
  check_product_type at j pt =
      report_if (not (is_valid_product_type pt)) (at ++ "product_types" ∷ lib.index_seg j ∷ [])
        unknown_kind

  unfoldable pub check_product_types : List String → List String → List Violation
  check_product_types at [] = report_if true (at ++ "product_types" ∷ []) required
  check_product_types at (pt ∷ types) = check_each (check_product_type at) 0 (pt ∷ types)

  unfoldable pub check_multiplier : List String → String → fl.Float → List Violation
  check_multiplier at k mult = elim (is_not_finite fl mult) [
    | true ↦ report_if true (at ++ "dimension_pricing" ∷ k ∷ []) not_finite
    | false ↦
        report_if (is_not_above_zero fl lib mult) (at ++ "dimension_pricing" ∷ k ∷ []) not_positive
  ]

  -- The fields of an archetype that are checked one by one.
  unfoldable pub check_fields : List String → TenantArchetype fl.Float → List Violation
  check_fields at a = in_turn (
      report_if (is_off_unit fl a.weight) (at ++ "weight" ∷ []) not_in_unit
      ∷ report_if (not (is_valid_pricing_model a.pricing_model)) (at ++ "pricing_model" ∷ [])
          unknown_kind
      ∷ report_if (not (is_valid_billing_mode a.billing_mode)) (at ++ "billing_mode" ∷ [])
          unknown_kind
      ∷ check_product_types at a.product_types
      ∷ report_if (lez a.customer_count (pos 0)) (at ++ "customer_count" ∷ []) not_positive
      ∷ report_if (ltz a.products_per_type (pos 0)) (at ++ "products_per_type" ∷ []) negative
      ∷ report_if (ltz (pos 25) a.products_per_type) (at ++ "products_per_type" ∷ []) above_cap
      ∷ [])

  -- The maps of an archetype.
  unfoldable pub check_maps : List String → TenantArchetype fl.Float → List Violation
  check_maps at a =
      check_entries (check_metric_config fl lib at) (entries a.metric_configs)
      ++ check_entries (check_multiplier at) (entries a.dimension_pricing)
      ++ check_weight_map fl lib (at ++ "currency_mix" ∷ []) a.currency_mix false
      ++ check_subscription_state_mix fl lib (at ++ "subscription_state_mix" ∷ [])
          a.subscription_state_mix
      ++ check_weight_map fl lib (at ++ "discount_mix" ∷ []) a.discount_mix false

  unfoldable pub check_wallet_balance : List String → TenantArchetype fl.Float → List Violation
  check_wallet_balance at a =
      when (is_key a.billing_mode "PREPAID" || is_key a.billing_mode "HYBRID") (
        report_if (is_not_above_zero fl lib a.rate_config.wallet_initial_balance_usd)
          (at ++ "rate_config" ∷ "wallet_initial_balance_usd" ∷ []) needs_wallet)

  -- The body of the loop on the archetypes, but for the name.
  unfoldable pub check_archetype : List String → TenantArchetype fl.Float → List Violation
  check_archetype at a = in_turn (
      check_fields at a
      ∷ check_maps at a
      ∷ check_wallet_balance at a
      ∷ check_minimums fl lib at a.pricing_model a.rate_config
      ∷ check_rate_cards fl lib (at ++ "rate_cards" ∷ []) a
      ∷ [])

  -- The loop from archetype `i` on, and the check of the sum of the weights after it.
  unfoldable pub check_archetypes :
      List (String × ℕ) → fl.Float → ℕ → List (TenantArchetype fl.Float) → List Violation
  check_archetypes seen sum i [] =
      report_if (not (weights_approx_one fl sum)) ("tenants" ∷ "archetypes" ∷ []) sum_not_one
  check_archetypes seen sum i (a ∷ rest) =
      let at = "tenants" ∷ "archetypes" ∷ lib.index_seg i ∷ [] in
      check_name (at ++ "name" ∷ []) seen a.name
      ++ check_archetype at a
      ++ check_archetypes (note_name seen i a.name) (fl.add sum a.weight) (suc i) rest

  unfoldable pub check_archetype_list : List (TenantArchetype fl.Float) → List Violation
  check_archetype_list [] = report_if true ("tenants" ∷ "archetypes" ∷ []) required
  check_archetype_list (a ∷ rest) = check_archetypes [] (fl.of_int 0) 0 (a ∷ rest)

  unfoldable pub check_tenants : Tenants fl.Float → List Violation
  check_tenants t =
      report_if (lez t.count (pos 0)) ("tenants" ∷ "count" ∷ []) not_positive
      ++ report_if (not (is_one_of ("uniform" ∷ "pareto_80_20" ∷ "zipf" ∷ []) t.distribution))
          ("tenants" ∷ "distribution" ∷ []) unknown_kind
      ++ check_archetype_list t.archetypes
