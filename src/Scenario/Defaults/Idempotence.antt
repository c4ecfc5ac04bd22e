-- ===== src/Scenario/Defaults/Idempotence.antt =====
-- A scenario filled in twice (internal/scenario/defaults.go).
use aforo_nextgen_loadgen.Base.{
  ℤ, pos, eqz, ℕ, suc, true, String, List, [], ◌∷◌, map, if◌then◌else◌, ◌≡◌, refl, ap, ◌∙◌,
}
use aforo_nextgen_loadgen.Base.Floats.{Floats}
use aforo_nextgen_loadgen.Scenario.Rates.{RateCardSpec, TenantArchetype}
use aforo_nextgen_loadgen.Scenario.Sections.{Tenants, Scenario}
use aforo_nextgen_loadgen.Scenario.Defaults.{
  default_card, inherit, inherit_all, share_out, fill_cards, fill_archetype, fill_tenants,
  apply_defaults,
}
use aforo_nextgen_loadgen.Scenario.Defaults.Repairs.{
  repair_idem, text_or_idem, fill_payments_idem, fill_payload_idem, fill_tax_idem, fill_erp_idem,
  fill_credit_notes_idem, fill_wallet_idem, fill_fx_idem, fill_assertions_idem,
}
use aforo_nextgen_loadgen.Scenario.Defaults.Cards.{fill_cards_idem}

module _ (fl : Floats) (card_name : ℕ → String) where
  -- The name of the products and the cards of an archetype play no part in filling its cards.
  inherit_all_only :
      (a : TenantArchetype fl.Float) (n : ℤ) (cs : List (RateCardSpec fl.Float)) (j : ℕ)
      (cards : List (RateCardSpec fl.Float))
      → inherit_all fl card_name (record a { products_per_type = n; rate_cards = cs }) j cards
        ≡ inherit_all fl card_name a j cards
  unfolding inherit_all inherit
  inherit_all_only a n cs j [] = refl
  inherit_all_only a n cs j (rc ∷ rest) =
      ap (λ cards. inherit fl card_name a j rc ∷ cards) (inherit_all_only a n cs (suc j) rest)

  fill_cards_only :
      (a : TenantArchetype fl.Float) (n : ℤ) (cs : List (RateCardSpec fl.Float))
      (cards : List (RateCardSpec fl.Float))
      → fill_cards fl card_name (record a { products_per_type = n; rate_cards = cs }) cards
        ≡ fill_cards fl card_name a cards
  unfolding fill_cards default_card
  fill_cards_only a n cs [] = refl
  fill_cards_only a n cs (rc ∷ rest) =
      ap (share_out fl card_name) (inherit_all_only a n cs 0 (rc ∷ rest))

  fill_archetype_idem :
      (a : TenantArchetype fl.Float)
      → fl.lt (fl.of_int 0) (fl.of_int 1) ≡ true
      → fill_archetype fl card_name (fill_archetype fl card_name a) ≡ fill_archetype fl card_name a
  unfolding fill_archetype
  fill_archetype_idem a positive =
      let bounded : ℤ → ℤ = λ n. if eqz n (pos 0) then pos 1 else n in
      let products : bounded (bounded a.products_per_type) ≡ bounded a.products_per_type =
        repair_idem (λ n. eqz n (pos 0)) (λ n. pos 1) a.products_per_type refl in
      let cards =
        fill_cards_only a (bounded a.products_per_type) (fill_cards fl card_name a a.rate_cards)
          (fill_cards fl card_name a a.rate_cards)
        ∙ fill_cards_idem fl card_name a a.rate_cards positive in
      rw (products, cards) refl

  map_idem :
      {A : Type 0} (f : A → A)
      → ((x : A) → f (f x) ≡ f x)
      → (xs : List A) → map f (map f xs) ≡ map f xs
  map_idem f same [] = refl
  map_idem f same (x ∷ xs) = rw (same x, map_idem f same xs) refl

  fill_tenants_idem :
      (t : Tenants fl.Float)
      → fl.lt (fl.of_int 0) (fl.of_int 1) ≡ true
      → fill_tenants fl card_name (fill_tenants fl card_name t) ≡ fill_tenants fl card_name t
  unfolding fill_tenants
  fill_tenants_idem t positive =
      let archetypes =
        map_idem (fill_archetype fl card_name) (λ a. fill_archetype_idem a positive) t.archetypes in
      rw (archetypes, text_or_idem) refl

  -- Filling in the defaults of a scenario a second time changes nothing, where 0 < 1 among the floats: a
  -- card that stands for the scalars of its archetype keeps its whole share.
  pub apply_defaults_idem :
      (s : Scenario fl.Float)
      → fl.lt (fl.of_int 0) (fl.of_int 1) ≡ true
      → apply_defaults fl card_name (apply_defaults fl card_name s) ≡ apply_defaults fl card_name s
  unfolding apply_defaults
  apply_defaults_idem s positive =
      simp
        (
          fill_tenants_idem s.tenants positive,
          text_or_idem,
          fill_payload_idem,
          fill_tax_idem,
          fill_payments_idem,
          fill_erp_idem,
          fill_credit_notes_idem,
          fill_wallet_idem,
          fill_fx_idem,
          fill_assertions_idem,
        )
        refl
