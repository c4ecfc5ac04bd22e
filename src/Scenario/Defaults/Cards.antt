-- ===== src/Scenario/Defaults/Cards.antt =====
-- The cards of an archetype filled in twice (internal/scenario/defaults.go).
use aforo_nextgen_loadgen.Base.{
  ℕ, suc, true, not, String, Option, none, some, List, [], ◌∷◌, length, is_key, ◌≡◌, refl, ap, ◌∙◌,
  inl, inr, Bool-cases, arith,
}
use aforo_nextgen_loadgen.Base.Floats.{Floats}
use aforo_nextgen_loadgen.Scenario.Rates.{RateConfig, RateCardSpec, TenantArchetype}
use aforo_nextgen_loadgen.Scenario.Defaults.{
  text_or, map_or, is_zero_rate_config, rate_or, default_card, inherit, inherit_all, any_shares_set,
  set_shares, share_out, fill_cards,
}
use aforo_nextgen_loadgen.Scenario.Defaults.Repairs.{
  repair_idem, text_or_idem, map_or_idem, rate_or_idem,
}

text_or_self : (t : String) → text_or t t ≡ t
unfolding text_or
text_or_self t = elim (Bool-cases (is_key t "")) [ inl e ↦ rw e refl | inr e ↦ rw e refl ]

text_or-default : (t : String) → text_or "default" t ≡ "default"
unfolding text_or
text_or-default t = refl

map_or_self : {A : Type 0} (m : Option A) → map_or m m ≡ m
unfolding map_or
map_or_self none = refl
map_or_self (some m) = refl

module _ (fl : Floats) (card_name : ℕ → String) where
  rate_or_self : (rc : RateConfig fl.Float) → rate_or fl card_name rc rc ≡ rc
  unfolding rate_or
  rate_or_self rc = elim (Bool-cases (is_zero_rate_config fl card_name rc)) [
    | inl e ↦ rw e refl
    | inr e ↦ rw e refl
  ]

  inherit_idem :
      (a : TenantArchetype fl.Float) (j : ℕ) (rc : RateCardSpec fl.Float)
      → inherit fl card_name a j (inherit fl card_name a j rc) ≡ inherit fl card_name a j rc
  unfolding inherit
  inherit_idem a j rc = simp (text_or_idem, map_or_idem, rate_or_idem) refl

  inherit-default_card :
      (a : TenantArchetype fl.Float)
      → inherit fl card_name a 0 (default_card fl card_name a) ≡ default_card fl card_name a
  unfolding inherit default_card
  inherit-default_card a = simp (text_or-default, text_or_self, map_or_self, rate_or_self) refl

  inherit_all_idem :
      (a : TenantArchetype fl.Float) (j : ℕ) (cards : List (RateCardSpec fl.Float))
      → inherit_all fl card_name a j (inherit_all fl card_name a j cards)
        ≡ inherit_all fl card_name a j cards
  unfolding inherit_all
  inherit_all_idem a j [] = refl
  inherit_all_idem a j (rc ∷ rest) = rw (inherit_idem a j rc, inherit_all_idem a (suc j) rest) refl

  inherit_all-set_shares :
      (a : TenantArchetype fl.Float) (j : ℕ) (share : fl.Float)
      (cards : List (RateCardSpec fl.Float))
      → inherit_all fl card_name a j (set_shares fl card_name share cards)
        ≡ set_shares fl card_name share (inherit_all fl card_name a j cards)
  unfolding inherit_all set_shares inherit
  inherit_all-set_shares a j share [] = refl
  inherit_all-set_shares a j share (rc ∷ rest) =
      ap (λ cards. record (inherit fl card_name a j rc) { customer_share = share } ∷ cards)
        (inherit_all-set_shares a (suc j) share rest)

  length-set_shares :
      (share : fl.Float) (cards : List (RateCardSpec fl.Float))
      → length (set_shares fl card_name share cards) ≡ length cards
  unfolding set_shares
  length-set_shares share [] = refl
  length-set_shares share (rc ∷ rest) = ap suc (length-set_shares share rest)

  set_shares_twice :
      (x y : fl.Float) (cards : List (RateCardSpec fl.Float))
      → set_shares fl card_name x (set_shares fl card_name y cards)
        ≡ set_shares fl card_name x cards
  unfolding set_shares
  set_shares_twice x y [] = refl
  set_shares_twice x y (rc ∷ rest) =
      ap (λ cards. record rc { customer_share = x } ∷ cards) (set_shares_twice x y rest)

  abbrev even_out : List (RateCardSpec fl.Float) → List (RateCardSpec fl.Float)
  even_out cards = set_shares fl card_name (fl.quot (fl.of_int 1) (fl.of_int (length cards))) cards

  share_out_idem :
      (cards : List (RateCardSpec fl.Float))
      → share_out fl card_name (share_out fl card_name cards) ≡ share_out fl card_name cards
  unfolding share_out
  share_out_idem cards =
      repair_idem (λ xs. not (any_shares_set fl card_name xs)) even_out cards
        (rw (length-set_shares _ cards) (set_shares_twice _ _ cards))

  abbrev refill :
      TenantArchetype fl.Float → List (RateCardSpec fl.Float) → List (RateCardSpec fl.Float)
  refill a cards = share_out fl card_name (inherit_all fl card_name a 0 cards)

  inherit_all-share_out :
      (a : TenantArchetype fl.Float) (cards : List (RateCardSpec fl.Float))
      → inherit_all fl card_name a 0 cards ≡ cards
      → inherit_all fl card_name a 0 (share_out fl card_name cards) ≡ share_out fl card_name cards
  unfolding share_out
  inherit_all-share_out a cards same = elim (Bool-cases (any_shares_set fl card_name cards)) [
    | inl any ↦ rw any same
    | inr alone ↦ rw alone (
        inherit_all-set_shares a 0 _ cards
        ∙ ap (set_shares fl card_name (fl.quot (fl.of_int 1) (fl.of_int (length cards)))) same)
  ]

  refill_idem :
      (a : TenantArchetype fl.Float) (cards : List (RateCardSpec fl.Float))
      → refill a (refill a cards) ≡ refill a cards
  refill_idem a cards =
      let filled = inherit_all fl card_name a 0 cards in
      ap (share_out fl card_name) (inherit_all-share_out a filled (inherit_all_idem a 0 cards))
      ∙ share_out_idem filled

  length-inherit_all :
      (a : TenantArchetype fl.Float) (j : ℕ) (cards : List (RateCardSpec fl.Float))
      → length (inherit_all fl card_name a j cards) ≡ length cards
  unfolding inherit_all
  length-inherit_all a j [] = refl
  length-inherit_all a j (rc ∷ rest) = ap suc (length-inherit_all a (suc j) rest)

  length-share_out :
      (cards : List (RateCardSpec fl.Float)) → length (share_out fl card_name cards) ≡ length cards
  unfolding share_out
  length-share_out cards = elim (Bool-cases (any_shares_set fl card_name cards)) [
    | inl any ↦ rw any refl
    | inr alone ↦ rw alone (length-set_shares _ cards)
  ]

  fill_cards_some :
      (a : TenantArchetype fl.Float) (cards : List (RateCardSpec fl.Float)) (n : ℕ)
      → length cards ≡ suc n
      → fill_cards fl card_name a cards ≡ refill a cards
  unfolding fill_cards
  fill_cards_some a [] n e = absurd (omega (arith, e))
  fill_cards_some a (rc ∷ rest) n e = refl

  default_card-is_shared :
      (a : TenantArchetype fl.Float)
      → fl.lt (fl.of_int 0) (fl.of_int 1) ≡ true
      → any_shares_set fl card_name (default_card fl card_name a ∷ []) ≡ true
  unfolding any_shares_set default_card
  default_card-is_shared a positive = rw positive refl

  default_card_idem :
      (a : TenantArchetype fl.Float)
      → any_shares_set fl card_name (default_card fl card_name a ∷ []) ≡ true
      → fill_cards fl card_name a (default_card fl card_name a ∷ [])
        ≡ default_card fl card_name a ∷ []
  unfolding fill_cards share_out inherit_all
  default_card_idem a whole = rw (inherit-default_card a, whole) refl

  pub fill_cards_idem :
      (a : TenantArchetype fl.Float) (cards : List (RateCardSpec fl.Float))
      → fl.lt (fl.of_int 0) (fl.of_int 1) ≡ true
      → fill_cards fl card_name a (fill_cards fl card_name a cards)
        ≡ fill_cards fl card_name a cards
  unfolding fill_cards
  fill_cards_idem a [] positive = default_card_idem a (default_card-is_shared a positive)
  fill_cards_idem a (rc ∷ rest) positive =
      let filled = fill_cards_some a (rc ∷ rest) (length rest) refl in
      let still =
        length-share_out (inherit_all fl card_name a 0 (rc ∷ rest))
        ∙ length-inherit_all a 0 (rc ∷ rest) in
      rw filled
        (fill_cards_some a (refill a (rc ∷ rest)) (length rest) still ∙ refill_idem a (rc ∷ rest))
