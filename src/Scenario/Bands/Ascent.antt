-- ===== src/Scenario/Bands/Ascent.antt =====
-- The tiers that validateTierBandOrdering lets pass (internal/scenario/validator.go).
use aforo_nextgen_loadgen.Base.{
  ℤ, pos, negsuc, lez, eqz, ℕ, suc, ◌<◌, false, String, List, [], ◌∷◌, ◌≡◌, ◌⊎◌, inl, inr, refl,
  sym, subst, arith,
}
use aforo_nextgen_loadgen.Base.Floats.{Floats}
use aforo_nextgen_loadgen.Scenario.Bands.{check_order, validate_tier_band_ordering}
use aforo_nextgen_loadgen.Scenario.Bands.Stairs.{eqz_eq, is_empty-nil}
use aforo_nextgen_loadgen.Scenario.Rates.{TierBand}
use aforo_nextgen_loadgen.Scenario.Report.{
  Library, append-nil_iff, report_if-nil, branch-nil, not-false,
}

-- Bounds that ascend from above `low`: only the last tier may have none.
module _ {F : Type 0} where
  abbrev pub IsLadder : ℕ → List (TierBand F) → Type 0
  IsLadder low [] = Unit
  IsLadder low (b ∷ rest) =
      ((b.up_to_units ≡ pos 0) × (rest ≡ []))
      ⊎ ((t : ℕ) × (b.up_to_units ≡ pos t) × (low < t) × IsLadder t rest)

-- The bound before the first tier is -1.
abbrev IsBelow : ℤ → ℕ → Type 0
IsBelow (pos n) low = n ≡ low
IsBelow (negsuc n) low = (n ≡ 0) × (low ≡ 0)

above :
    (prev a : ℤ) (low : ℕ)
    → IsBelow prev low
    → eqz a (pos 0) ≡ false
    → lez a prev ≡ false
    → (t : ℕ) × (a ≡ pos t) × (low < t)
above (pos m) (pos n) low is some_bound up = (n, refl, ground (arith, is, up))
above (pos m) (negsuc n) low is some_bound up = ground (arith, up)
above (negsuc m) (pos n) low is some_bound up = (n, refl, ground (arith, is.1, some_bound))
above (negsuc m) (negsuc n) low is some_bound up = ground (arith, is.0, up)

module _ (fl : Floats) (lib : Library fl.Float) where
  check_order-IsLadder :
      (path : List String) (prev : ℤ) (low i : ℕ) (bands : List (TierBand fl.Float))
      → IsBelow prev low
      → check_order fl lib path prev i bands ≡ []
      → IsLadder low bands
  unfolding check_order
  check_order-IsLadder path prev low i [] is e = tt
  check_order-IsLadder path prev low i (b ∷ rest) is e =
      elim (branch-nil (eqz b.up_to_units (pos 0)) _ _ e) [
        | inl (unbounded, silent) ↦ inl (
          eqz_eq b.up_to_units 0 unbounded,
          is_empty-nil rest (not-false _ (report_if-nil _ _ _ ((append-nil_iff _ _).0 silent).0)),
        )
        | inr (bounded, silent) ↦
            let (here, later) = (append-nil_iff _ _).0 silent in
            let (t, is_t, up) =
              above prev b.up_to_units low is bounded (report_if-nil _ _ _ here) in
            inr (
              t,
              is_t,
              up,
              check_order-IsLadder path b.up_to_units t (suc i) rest
                  (subst (λ x. IsBelow x t) (sym is_t) refl) later,
            )
      ]

  pub validate_tier_band_ordering-IsLadder :
      (path : List String) (bands : List (TierBand fl.Float))
      → validate_tier_band_ordering fl lib path bands ≡ []
      → IsLadder 0 bands
  unfolding validate_tier_band_ordering
  validate_tier_band_ordering-IsLadder path bands e =
      check_order-IsLadder path (negsuc 0) 0 0 bands (refl, refl) e
