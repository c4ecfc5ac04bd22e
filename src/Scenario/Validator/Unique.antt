-- ===== src/Scenario/Validator/Unique.antt =====
-- The names of a scenario that passes: run of internal/scenario/validator.go.
use aforo_nextgen_loadgen.Base.{ℕ, suc, String, List, [], ◌∷◌, ◌++◌, ◌≡◌, All, map}
use aforo_nextgen_loadgen.Base.Floats.{Floats}
use aforo_nextgen_loadgen.Scenario.Archetypes.{check_archetypes, check_archetype_list}
use aforo_nextgen_loadgen.Scenario.Estimate.Models.{run-archetypes, check_archetype-cards}
use aforo_nextgen_loadgen.Scenario.RateCards.{note_name, check_cards, check_card_list}
use aforo_nextgen_loadgen.Scenario.RateCards.Distinct.{AreDistinct, IsSilent, silent-AreDistinct}
use aforo_nextgen_loadgen.Scenario.Rates.{RateCardSpec, TenantArchetype}
use aforo_nextgen_loadgen.Scenario.Report.{Library, append-nil_iff}
use aforo_nextgen_loadgen.Scenario.Sections.{Scenario}
use aforo_nextgen_loadgen.Scenario.Validator.{run}

module _ (fl : Floats) (lib : Library fl.Float) where
  abbrev pub card_names : List (RateCardSpec fl.Float) → List String
  card_names cards = map (λ (rc : RateCardSpec fl.Float). rc.name) cards

  abbrev pub archetype_names : List (TenantArchetype fl.Float) → List String
  archetype_names archetypes = map (λ (a : TenantArchetype fl.Float). a.name) archetypes

  -- Where the report of a name stands.
  abbrev name_at : List String → ℕ → List String
  name_at path i = path ++ lib.index_seg i ∷ [] ++ "name" ∷ []

  check_cards-IsSilent :
      (path types : List String) (seen : List (String × ℕ)) (sum : fl.Float) (i : ℕ)
      (cards : List (RateCardSpec fl.Float))
      → check_cards fl lib path types seen sum i cards ≡ []
      → IsSilent (name_at path) seen i (card_names cards)
  unfolding check_cards
  check_cards-IsSilent path types seen sum i [] e = tt
  check_cards-IsSilent path types seen sum i (rc ∷ rest) e =
      let (front, later) = (append-nil_iff _ _).0 e in
      (
        ((append-nil_iff _ _).0 front).0,
        check_cards-IsSilent path types (note_name seen i rc.name) (fl.add sum rc.customer_share)
            (suc i) rest later,
      )

  check_card_list-AreDistinct :
      (path types : List String) (cards : List (RateCardSpec fl.Float))
      → check_card_list fl lib path types cards ≡ []
      → AreDistinct (card_names cards)
  unfolding check_card_list
  check_card_list-AreDistinct path types [] e = tt
  check_card_list-AreDistinct path types (rc ∷ rest) e =
      silent-AreDistinct (name_at path) [] 0 (card_names (rc ∷ rest))
        (check_cards-IsSilent path types [] (fl.of_int 0) 0 (rc ∷ rest) e)

  abbrev pub HasDistinctCards : TenantArchetype fl.Float → Type 0
  HasDistinctCards a = AreDistinct (card_names a.rate_cards)

  abbrev root : List String
  root = "tenants" ∷ "archetypes" ∷ []

  check_archetypes-IsSilent :
      (seen : List (String × ℕ)) (sum : fl.Float) (i : ℕ)
      (archetypes : List (TenantArchetype fl.Float))
      → check_archetypes fl lib seen sum i archetypes ≡ []
      → IsSilent (name_at root) seen i (archetype_names archetypes)
        × All HasDistinctCards archetypes
  unfolding check_archetypes
  check_archetypes-IsSilent seen sum i [] e = (tt, tt)
  check_archetypes-IsSilent seen sum i (a ∷ rest) e =
      let (front, later) = (append-nil_iff _ _).0 e in
      let (named, checked) = (append-nil_iff _ _).0 front in
      let (silent, cards) =
        check_archetypes-IsSilent (note_name seen i a.name) (fl.add sum a.weight) (suc i) rest
          later in
      (
        (named, silent),
        (
          check_card_list-AreDistinct _ a.product_types a.rate_cards
              (check_archetype-cards fl lib _ a checked),
          cards,
        ),
      )

  check_archetype_list-AreDistinct :
      (archetypes : List (TenantArchetype fl.Float))
      → check_archetype_list fl lib archetypes ≡ []
      → AreDistinct (archetype_names archetypes) × All HasDistinctCards archetypes
  unfolding check_archetype_list
  check_archetype_list-AreDistinct [] e = (tt, tt)
  check_archetype_list-AreDistinct (a ∷ rest) e =
      let (silent, cards) = check_archetypes-IsSilent [] (fl.of_int 0) 0 (a ∷ rest) e in
      (silent-AreDistinct (name_at root) [] 0 (archetype_names (a ∷ rest)) silent, cards)

  -- Where the validator reports nothing for a scenario, the names of its archetypes are not empty and differ
  -- from each other, and so do the names of the rate cards of each archetype.
  pub run-AreDistinct :
      (s : Scenario fl.Float)
      → run fl lib s ≡ []
      → AreDistinct (archetype_names s.tenants.archetypes)
        × All HasDistinctCards s.tenants.archetypes
  run-AreDistinct s e =
      check_archetype_list-AreDistinct s.tenants.archetypes (run-archetypes fl lib s e)
