-- ===== src/Seed/RatePlans/Request/FlatFee.antt =====
-- Where a plan carries its flat fee (internal/seed/rateplans.go).
use aforo_nextgen_loadgen.Base.{
  Bool, true, false, ◌||◌, String, none, some, List, [], ◌∷◌, ◌≡◌, ◌⊎◌, refl, find, is_key, keep,
  All,
}
use aforo_nextgen_loadgen.Base.Floats.{Floats}
use aforo_nextgen_loadgen.Scenario.Archetypes.{entries}
use aforo_nextgen_loadgen.Scenario.Rates.{MetricOverride, TenantArchetype}
use aforo_nextgen_loadgen.Seed.RatePlans.Metrics.{ManifestMetric, MetricConfigRequest, Library}
use aforo_nextgen_loadgen.Seed.RatePlans.Request.{RatePlanCreateRequest, fold_overrides}

module _ (fl : Floats) (lib : Library) where
  abbrev pub is_flat : MetricConfigRequest fl.Float → Bool
  is_flat mc = is_key mc.model "FLAT_RATE"

  -- Whether a metric has no override.
  abbrev pub is_plain : List (String × MetricOverride fl.Float) → ManifestMetric → Bool
  is_plain overrides m = elim (find (lib.fold_name m.name) overrides) [
    | none ↦ true
    | some ov ↦ false
  ]

  -- Whether some metric has no override.
  abbrev pub any_plain : List (String × MetricOverride fl.Float) → List ManifestMetric → Bool
  any_plain overrides [] = false
  any_plain overrides (m ∷ rest) = is_plain overrides m || any_plain overrides rest

  module _ (a : TenantArchetype fl.Float) (flat : a.pricing_model ≡ "FLAT_RATE") where
    abbrev Overrides : Type 0
    Overrides = List (String × MetricOverride fl.Float)

    keep_skip :
        {A : Type 0} (p : A → Bool) (x : A) (xs : List A)
        → p x ≡ false
        → keep p (x ∷ xs) ≡ keep p xs
    keep_skip p x xs h = rw h refl

-- A plan without metrics has the fee as its base fee. Another one has no base fee: either some metric has no
-- override and the fee is the rate of its only FLAT_RATE config, or every metric has an override and it has no
-- such config.
abbrev pub CarriesFee :
    (fl : Floats)
    → Library
    → TenantArchetype fl.Float
    → List ManifestMetric
    → RatePlanCreateRequest fl.Float
    → Type 0
CarriesFee fl lib a metrics body =
    ((metrics ≡ []) × (body.base_fee ≡ a.rate_config.flat_fee_usd) × (body.metric_configs ≡ []))
    ⊎ ((body.base_fee ≡ fl.of_int 0)
        × (((any_plain fl lib (fold_overrides fl lib [] (entries a.metric_configs)) metrics ≡ true)
              × ((c : MetricConfigRequest fl.Float) × (keep (is_flat fl lib) body.metric_configs
                    ≡ c ∷ [])
                  × (c.rate ≡ some a.rate_config.flat_fee_usd)))
            ⊎ ((keep (is_flat fl lib) body.metric_configs ≡ [])
                × All
                    (λ m.
                      is_plain fl lib (fold_overrides fl lib [] (entries a.metric_configs)) m
                      ≡ false)
                    metrics)))
