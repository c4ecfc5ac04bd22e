-- ===== src/Scenario/Estimate/Models.antt =====
-- The pricing models that a scenario may name and those that can be billed
-- (internal/scenario/validator.go, internal/validate/billing_match.go).
use aforo_nextgen_loadgen.Base.{
  ℕ, suc, Bool, true, false, ◌||◌, String, some, List, [], ◌∷◌, ◌++◌, ◌≡◌, refl, All, All-map_imp,
  is_key, if◌then◌else◌,
}
use aforo_nextgen_loadgen.Base.Floats.{Floats}
use aforo_nextgen_loadgen.Billing.{
  CalcInputs, CalcResult, PricingModel, per_unit, flat_rate, percentage, included_quota, graduated,
  volume_tiered, staircase, outcome_based, no_model,
}
use aforo_nextgen_loadgen.Billing.Calculator
use aforo_nextgen_loadgen.Billing.Calculator.{rate, calculate}
use aforo_nextgen_loadgen.Billing.Calculator.Errors.{IsKnown}
use aforo_nextgen_loadgen.Scenario.Archetypes.{
  check_archetype, check_archetypes, check_archetype_list, check_tenants,
}
use aforo_nextgen_loadgen.Scenario.Estimate.{billing_model}
use aforo_nextgen_loadgen.Scenario.Names.{is_one_of, is_valid_pricing_model}
use aforo_nextgen_loadgen.Scenario.RateCards.{
  note_name, check_card, check_cards, check_card_list, check_rate_cards,
}
use aforo_nextgen_loadgen.Scenario.Rates.{RateCardSpec, TenantArchetype}
use aforo_nextgen_loadgen.Scenario.Sections.{Scenario}
use aforo_nextgen_loadgen.Scenario.Report.{
  Library, append-nil_iff, report_if-nil, in_turn-nil, not-false,
}
use aforo_nextgen_loadgen.Scenario.Validator.{run}

-- The names in the order in which they are compared.
IsKnown-of :
    (a b c d e f g h : Bool) (m : String)
    → a || (b || (c || (d || (e || (f || (g || (h || false))))))) ≡ true
    → IsKnown (
        if a
        then per_unit
        else if b
        then flat_rate
        else if c
        then percentage
        else if d
        then included_quota
        else if e
        then graduated
        else if f
        then volume_tiered
        else if g
        then staircase
        else if h
        then outcome_based
        else no_model m)
IsKnown-of true b c d e f g h m some_name = tt
IsKnown-of false true c d e f g h m some_name = tt
IsKnown-of false false true d e f g h m some_name = tt
IsKnown-of false false false true e f g h m some_name = tt
IsKnown-of false false false false true f g h m some_name = tt
IsKnown-of false false false false false true g h m some_name = tt
IsKnown-of false false false false false false true h m some_name = tt
IsKnown-of false false false false false false false true m some_name = tt
IsKnown-of false false false false false false false false m some_name = absurd cc

pub billing_model-IsKnown :
    (m : String) → is_valid_pricing_model m ≡ true → IsKnown (billing_model m)
unfolding billing_model is_valid_pricing_model is_one_of
billing_model-IsKnown m valid =
    IsKnown-of (is_key m "PER_UNIT") (is_key m "FLAT_RATE") (is_key m "PERCENTAGE")
      (is_key m "INCLUDED_QUOTA") (is_key m "GRADUATED") (is_key m "VOLUME_TIERED")
      (is_key m "STAIRCASE") (is_key m "OUTCOME_BASED") m valid

module _ (fl : Floats) (lib : Library fl.Float) where
  abbrev IsBillable : RateCardSpec fl.Float → Type 0
  IsBillable rc = IsKnown (billing_model rc.pricing_model)

  check_card-is_valid :
      (at types : List String) (rc : RateCardSpec fl.Float)
      → check_card fl lib at types rc ≡ []
      → is_valid_pricing_model rc.pricing_model ≡ true
  unfolding check_card
  check_card-is_valid at types rc e = not-false _ (report_if-nil _ _ _ (in_turn-nil _ _ e).0)

  check_cards-IsBillable :
      (path types : List String) (seen : List (String × ℕ)) (sum : fl.Float) (i : ℕ)
      (cards : List (RateCardSpec fl.Float))
      → check_cards fl lib path types seen sum i cards ≡ []
      → All IsBillable cards
  unfolding check_cards
  check_cards-IsBillable path types seen sum i [] e = tt
  check_cards-IsBillable path types seen sum i (rc ∷ rest) e =
      let (front, later) = (append-nil_iff _ _).0 e in
      (
        billing_model-IsKnown rc.pricing_model (
            check_card-is_valid (path ++ lib.index_seg i ∷ []) types rc
              ((append-nil_iff _ _).0 front).1),
        check_cards-IsBillable path types (note_name seen i rc.name) (fl.add sum rc.customer_share)
            (suc i) rest later,
      )

  check_card_list-IsBillable :
      (path types : List String) (cards : List (RateCardSpec fl.Float))
      → check_card_list fl lib path types cards ≡ []
      → All IsBillable cards
  unfolding check_card_list
  check_card_list-IsBillable path types [] e = tt
  check_card_list-IsBillable path types (rc ∷ rest) e =
      check_cards-IsBillable path types [] (fl.of_int 0) 0 (rc ∷ rest) e

  pub check_archetype-cards :
      (at : List String) (a : TenantArchetype fl.Float)
      → check_archetype fl lib at a ≡ []
      → check_card_list fl lib (at ++ "rate_cards" ∷ []) a.product_types a.rate_cards ≡ []
  unfolding check_archetype check_rate_cards
  check_archetype-cards at a e =
      let (fields, maps) = in_turn-nil _ _ e in
      let (silent, wallet) = in_turn-nil _ _ maps in
      let (funded, minimums) = in_turn-nil _ _ wallet in
      let (enough, cards) = in_turn-nil _ _ minimums in (in_turn-nil _ _ cards).0

  abbrev AreBillable : TenantArchetype fl.Float → Type 0
  AreBillable a = All IsBillable a.rate_cards

  check_archetypes-AreBillable :
      (seen : List (String × ℕ)) (sum : fl.Float) (i : ℕ)
      (archetypes : List (TenantArchetype fl.Float))
      → check_archetypes fl lib seen sum i archetypes ≡ []
      → All AreBillable archetypes
  unfolding check_archetypes
  check_archetypes-AreBillable seen sum i [] e = tt
  check_archetypes-AreBillable seen sum i (a ∷ rest) e =
      let (front, later) = (append-nil_iff _ _).0 e in
      (
        check_card_list-IsBillable _ a.product_types a.rate_cards
            (check_archetype-cards _ a ((append-nil_iff _ _).0 front).1),
        check_archetypes-AreBillable (note_name seen i a.name) (fl.add sum a.weight) (suc i) rest
            later,
      )

  check_archetype_list-AreBillable :
      (archetypes : List (TenantArchetype fl.Float))
      → check_archetype_list fl lib archetypes ≡ []
      → All AreBillable archetypes
  unfolding check_archetype_list
  check_archetype_list-AreBillable [] e = tt
  check_archetype_list-AreBillable (a ∷ rest) e =
      check_archetypes-AreBillable [] (fl.of_int 0) 0 (a ∷ rest) e

  pub run-archetypes :
      (s : Scenario fl.Float)
      → run fl lib s ≡ []
      → check_archetype_list fl lib s.tenants.archetypes ≡ []
  unfolding run check_tenants
  run-archetypes s e =
      let (version, identity) = in_turn-nil _ _ e in
      let (named, traffic) = in_turn-nil _ _ identity in
      let (sent, tenants) = in_turn-nil _ _ traffic in
      ((append-nil_iff _ _).0 (in_turn-nil _ _ tenants).0).1

  calculate_known :
      (strings : Calculator.Library fl.Float) (input : CalcInputs fl.Float) (available : fl.Float)
      (k : PricingModel)
      → IsKnown k
      → (r : CalcResult fl.Float) × (calculate fl strings (record input { model = k }) available
          ≡ some r)
  unfolding calculate rate
  calculate_known strings input available per_unit known = (_, refl)
  calculate_known strings input available flat_rate known = (_, refl)
  calculate_known strings input available percentage known = (_, refl)
  calculate_known strings input available included_quota known = (_, refl)
  calculate_known strings input available graduated known = (_, refl)
  calculate_known strings input available volume_tiered known = (_, refl)
  calculate_known strings input available staircase known = (_, refl)
  calculate_known strings input available outcome_based known = (_, refl)
  calculate_known strings input available (no_model t) known = absurd known

  -- Where the validator reports nothing for a scenario, the calculation succeeds, whatever its other inputs, for
  -- the pricing model of each rate card of each archetype.
  pub run-calculate :
      (strings : Calculator.Library fl.Float) (s : Scenario fl.Float) (input : CalcInputs fl.Float)
      (available : fl.Float)
      → run fl lib s ≡ []
      → All
          (λ (a : TenantArchetype fl.Float).
            All
              (λ (rc : RateCardSpec fl.Float).
                (r : CalcResult fl.Float) × (calculate fl strings
                    (record input { model = billing_model rc.pricing_model })
                    available
                  ≡ some r))
              a.rate_cards)
          s.tenants.archetypes
  run-calculate strings s input available e =
      All-map_imp
        (λ a cards.
          All-map_imp
            (λ (rc : RateCardSpec fl.Float) known.
              calculate_known strings input available (billing_model rc.pricing_model) known)
            a.rate_cards cards)
        s.tenants.archetypes
        (check_archetype_list-AreBillable s.tenants.archetypes (run-archetypes s e))
