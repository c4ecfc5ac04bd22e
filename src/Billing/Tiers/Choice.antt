-- ===== src/Billing/Tiers/Choice.antt =====
-- The tier of a whole volume (internal/validate/billing/volume_tiered.go).
use aforo_nextgen_loadgen.Base.{ℕ, ◌≤◌, ◌<◌, ◌≡◌, ◌⊎◌, List, [], ◌∷◌, All}
use aforo_nextgen_loadgen.Base.Floats.{Floats}
use aforo_nextgen_loadgen.Billing.{Tier}

module _ {F : Type 0} where
  abbrev pub IsAscending : List (Tier F) → Type 0
  IsAscending [] = Unit
  IsAscending (t ∷ rest) = All (λ u. t.up_to_units ≤ u.up_to_units) rest × IsAscending rest

  abbrev pub IsOneOf : Tier F → List (Tier F) → Type 0
  IsOneOf t [] = ⊥
  IsOneOf t (u ∷ rest) = (t ≡ u) ⊎ IsOneOf t rest

  -- The lowest of the tiers that reach the events, if one does.
  abbrev pub IsTierFor : ℕ → List (Tier F) → Tier F → Type 0
  IsTierFor events ts t =
      IsOneOf t ts
      × All (λ u. (u.up_to_units < events) ⊎ (t.up_to_units ≤ u.up_to_units)) ts
      × ((events ≤ t.up_to_units) ⊎ All (λ u. u.up_to_units < events) ts)
