-- ===== src/Seed/RatePlans/Agreement.antt =====
-- The tiers that are sent and those that the estimate uses (internal/seed/rateplans.go,
-- internal/validate/billing_match.go).
use aforo_nextgen_loadgen.Base.{
  ℤ, pos, lez, ltz, sucz_below, max_int64, ℕ, suc, ◌≤◌, ◌<◌, Bool, true, false, ◌&&◌, String,
  Option, none, some, List, [], ◌∷◌, map, ◌≡◌, inl, inr, refl, sym, ap, ◌∙◌, subst, arith,
  Bool-cases, if◌then◌else◌, leb, le→leb, All,
}
use aforo_nextgen_loadgen.Base.Floats.{Floats}
use aforo_nextgen_loadgen.Billing.{Tier}
use aforo_nextgen_loadgen.Scenario.Bands.{validate_tier_band_ordering}
use aforo_nextgen_loadgen.Scenario.Bands.Ascent.{IsLadder, validate_tier_band_ordering-IsLadder}
use aforo_nextgen_loadgen.Scenario.Estimate.{convert_tier, top_of}
use aforo_nextgen_loadgen.Scenario.Rates.{TierBand}
use aforo_nextgen_loadgen.Scenario.Report.{Library}
use aforo_nextgen_loadgen.Seed.RatePlans.{
  RateTierRequest, tier_from_band, tiers_from, tiers_from_bands,
}

-- Which of the elements pass a test, once the first that passes has been found no further one does.
abbrev pub first_flags {ℓ} : {A : Type ℓ} → (A → Bool) → List A → List Bool
first_flags p [] = []
first_flags p (x ∷ xs) =
    let rest = first_flags p xs in if p x then true ∷ map (λ y. false) xs else false ∷ rest

not_low : (t : ℕ) → 0 < t → leb t 0 ≡ false
not_low t positive = ground (arith, positive)

module _ {F : Type 0} where
  -- `tierStart <= u`, and `u <= tierEnd` where there is one.
  abbrev pub in_tier : ℕ → RateTierRequest F → Bool
  in_tier u t = lez t.tier_start (pos u) && is_within u t.tier_end
    where
      is_within : ℕ → Option ℤ → Bool
      is_within u none = true
      is_within u (some e) = lez (pos u) e

  abbrev pub reaches : ℕ → Tier F → Bool
  reaches u t = leb u t.up_to_units

  -- Every bound is below math.MaxInt64, so that the start of the next tier does not wrap.
  abbrev pub AreBounded : List (TierBand F) → Type 0
  AreBounded bands = All (λ b. ltz b.up_to_units (pos max_int64) ≡ true) bands

  bound_below :
      (t : ℕ) (b : TierBand F)
      → b.up_to_units ≡ pos t
      → ltz b.up_to_units (pos max_int64) ≡ true
      → t < max_int64
  bound_below t b is small =
      let below : ltz (pos t) (pos max_int64) ≡ true =
        subst (λ x. ltz x (pos max_int64) ≡ true) is small in
      ground (arith, below)

  in_tier_open :
      (u low i : ℕ) (b : TierBand F)
      → low < max_int64
      → b.up_to_units ≡ pos 0
      → in_tier u (tier_from_band (pos low) i b) ≡ leb (suc low) u
  unfolding tier_from_band
  in_tier_open u low i b small is = rw (is, sucz_below low small) (ground arith)

  in_tier_closed :
      (u low i t : ℕ) (b : TierBand F)
      → low < max_int64
      → b.up_to_units ≡ pos t
      → 0 < t
      → in_tier u (tier_from_band (pos low) i b) ≡ leb (suc low) u && leb u t
  unfolding tier_from_band
  in_tier_closed u low i t b small is positive =
      rw (is, sucz_below low small) (rw (not_low t positive) refl)

  reaches_open :
      (u : ℕ) (b : TierBand F)
      → b.up_to_units ≡ pos 0
      → u ≤ max_int64
      → reaches u (convert_tier b) ≡ true
  unfolding convert_tier top_of
  reaches_open u b is small = rw is (le→leb u max_int64 small)

  reaches_closed :
      (u t : ℕ) (b : TierBand F)
      → b.up_to_units ≡ pos t
      → 0 < t
      → reaches u (convert_tier b) ≡ leb u t
  unfolding convert_tier top_of
  reaches_closed u t b is positive = rw is (rw (not_low t positive) refl)

  -- The flags of the platform's tiers from `low` on, and those of the estimate's.
  abbrev sent_flags : ℕ → ℕ → ℕ → List (TierBand F) → List Bool
  sent_flags u low i bands = map (in_tier u) (tiers_from (pos low) i bands)

  abbrev used_flags : ℕ → List (TierBand F) → List Bool
  used_flags u bands = first_flags (reaches u) (map convert_tier bands)

  abbrev no_flags : List (TierBand F) → List Bool
  no_flags bands = map (λ t. false) (map convert_tier bands)

  sent_flags_closed :
      (u low i t : ℕ) (b : TierBand F) (rest : List (TierBand F))
      → low < max_int64
      → b.up_to_units ≡ pos t
      → 0 < t
      → sent_flags u low i (b ∷ rest) ≡ (leb (suc low) u && leb u t) ∷ sent_flags u t (suc i) rest
  unfolding tiers_from
  sent_flags_closed u low i t b rest small is positive =
      let next : (if ltz (pos 0) b.up_to_units then b.up_to_units else pos low) ≡ pos t =
        rw is (rw (not_low t positive) refl) in
      rw (in_tier_closed u low i t b small is positive, next) refl

  -- No tier holds the units that the tiers before have taken.
  sent_flags_past :
      (u low i : ℕ) (bands : List (TierBand F))
      → IsLadder low bands
      → AreBounded bands
      → low < max_int64
      → u ≤ low
      → sent_flags u low i bands ≡ no_flags bands
  unfolding tiers_from
  sent_flags_past u low i [] ladder bounded small past = refl
  sent_flags_past u low i (b ∷ rest) (inl (unbounded, last)) bounded small past =
      subst (λ bs. sent_flags u low i (b ∷ bs) ≡ no_flags (b ∷ bs)) (sym last)
        (ap (λ x. x ∷ []) (in_tier_open u low i b small unbounded ∙ ground (arith, past)))
  sent_flags_past u low i (b ∷ rest) (inr (t, is, up, ladder)) bounded small past =
      let missed : leb (suc low) u && leb u t ≡ false = ground (arith, past) in
      let next =
        sent_flags_past u t (suc i) rest ladder bounded.1 (bound_below t b is bounded.0)
          (omega (arith, up, past)) in
      sent_flags_closed u low i t b rest small is (omega (arith, up))
      ∙ rw missed (ap (λ xs. false ∷ xs) next)

  used_flags_hit :
      (u : ℕ) (b : TierBand F) (rest : List (TierBand F))
      → reaches u (convert_tier b) ≡ true
      → used_flags u (b ∷ rest) ≡ true ∷ no_flags rest
  used_flags_hit u b rest hit = rw hit refl

  used_flags_miss :
      (u : ℕ) (b : TierBand F) (rest : List (TierBand F))
      → reaches u (convert_tier b) ≡ false
      → used_flags u (b ∷ rest) ≡ false ∷ used_flags u rest
  used_flags_miss u b rest miss = rw miss refl

  sent_flags-used_flags :
      (u low i : ℕ) (bands : List (TierBand F))
      → IsLadder low bands
      → AreBounded bands
      → low < u
      → low < max_int64
      → u ≤ max_int64
      → sent_flags u low i bands ≡ used_flags u bands
  unfolding tiers_from
  sent_flags-used_flags u low i [] ladder bounded after small top = refl
  sent_flags-used_flags u low i (b ∷ rest) (inl (unbounded, last)) bounded after small top =
      subst (λ bs. sent_flags u low i (b ∷ bs) ≡ used_flags u (b ∷ bs)) (sym last)
        (ap (λ x. x ∷ []) (in_tier_open u low i b small unbounded ∙ ground (arith, after))
          ∙ sym (used_flags_hit u b [] (reaches_open u b unbounded top)))
  sent_flags-used_flags u low i (b ∷ rest) (inr (t, is, up, ladder)) bounded after small top =
      let positive : 0 < t = omega (arith, up) in
      let below = bound_below t b is bounded.0 in
      let sent = sent_flags_closed u low i t b rest small is positive in
      let reached = reaches_closed u t b is positive in
      elim (Bool-cases (leb u t)) [
        | inl inside ↦
            let here : leb (suc low) u && leb u t ≡ true = ground (arith, after, inside) in
            let past =
              sent_flags_past u t (suc i) rest ladder bounded.1 below (ground (arith, inside)) in
            sent ∙ rw (here, past) (sym (used_flags_hit u b rest (reached ∙ inside)))
        | inr outside ↦
            let missed : leb (suc low) u && leb u t ≡ false = ground (arith, outside) in
            let later =
              sent_flags-used_flags u t (suc i) rest ladder bounded.1 (ground (arith, outside))
                below top in
            sent ∙ rw (missed, later) (sym (used_flags_miss u b rest (reached ∙ outside)))
      ]

-- Where the validator reports nothing about tiers whose bounds are below the largest int64, a unit from 1 to
-- that largest is in the tier sent to the platform that stands where the first of the estimate's tiers that
-- reaches the unit does, and in no other; where none of the estimate's tiers reaches it, none that is sent holds
-- it.
pub tiers_from_bands-convert_tier :
    (fl : Floats) (lib : Library fl.Float) (path : List String) (bands : List (TierBand fl.Float))
    (u : ℕ)
    → validate_tier_band_ordering fl lib path bands ≡ []
    → AreBounded bands
    → 1 ≤ u
    → u ≤ max_int64
    → map (in_tier u) (tiers_from_bands bands) ≡ first_flags (reaches u) (map convert_tier bands)
unfolding tiers_from_bands
tiers_from_bands-convert_tier fl lib path bands u valid bounded some_unit top =
    sent_flags-used_flags u 0 0 bands (validate_tier_band_ordering-IsLadder fl lib path bands valid)
      bounded (omega (arith, some_unit)) (omega arith) top
