-- ===== src/Billing/Calculator/Errors.antt =====
-- When a plan of several metrics is billed at all (internal/validate/billing/metrics.go).
use mathlib.Core.List.{append-nil, append_assoc, map-append}
use aforo_nextgen_loadgen.Base.{
  ◌≡◌, ◌↔◌, refl, ap, sym, arith, Option-cases, ◌∙◌, Bool, String, none, some, List, [], ◌∷◌, ◌++◌,
  map, inl, inr, All, true, false, if◌then◌else◌,
}
use aforo_nextgen_loadgen.Base.Floats.{Floats}
use aforo_nextgen_loadgen.Billing.{
  PricingModel, per_unit, flat_rate, percentage, included_quota, graduated, volume_tiered,
  staircase, outcome_based, no_model, TierCharge, CalcResult,
}
use aforo_nextgen_loadgen.Billing.Linear.{round_cents}
use aforo_nextgen_loadgen.Billing.Calculator.{
  MetricInput, MetricCharge, MetricsInputs, Library, rate_as, rate_metric, rate_metrics, finish,
  calculate_metrics,
}

abbrev pub IsKnown : PricingModel → Type 0
IsKnown (no_model m) = ⊥
IsKnown _ = Unit

module _ (fl : Floats) (lib : Library fl.Float) where
  abbrev Rated : Type 0
  Rated = fl.Float × List (TierCharge fl.Float)

  either : (b : Bool) (x y : Rated) → (r : Rated) × ((if b then some x else some y) ≡ some r)
  either true x y = (x, refl)
  either false x y = (y, refl)

  rate_as_known :
      (k : PricingModel) (m : MetricInput fl.Float)
      → IsKnown k
      → (r : Rated) × (rate_as fl lib k m ≡ some r)
  unfolding rate_as
  rate_as_known flat_rate m h = (_, refl)
  rate_as_known per_unit m h = either _ _ _
  rate_as_known percentage m h = either _ _ _
  rate_as_known included_quota m h = either _ _ _
  rate_as_known graduated m h = either _ _ _
  rate_as_known volume_tiered m h = either _ _ _
  rate_as_known staircase m h = either _ _ _
  rate_as_known outcome_based m h = either _ _ _
  rate_as_known (no_model t) m h = absurd h

  rate_as-some :
      (k : PricingModel) (m : MetricInput fl.Float) {r : Rated}
      → rate_as fl lib k m ≡ some r
      → IsKnown k
  unfolding rate_as
  rate_as-some flat_rate m e = tt
  rate_as-some per_unit m e = tt
  rate_as-some percentage m e = tt
  rate_as-some included_quota m e = tt
  rate_as-some graduated m e = tt
  rate_as-some volume_tiered m e = tt
  rate_as-some staircase m e = tt
  rate_as-some outcome_based m e = tt
  rate_as-some (no_model t) m e = ground (arith, e)

  abbrev pub name_of : MetricCharge fl.Float → String
  name_of l = l.name

  abbrev pub metric_names : List (MetricInput fl.Float) → List String
  metric_names ms = map (λ (m : MetricInput fl.Float). m.name) ms

  abbrev pub AllKnown : List (MetricInput fl.Float) → Type 0
  AllKnown ms = All (λ (m : MetricInput fl.Float). IsKnown m.model) ms

  rate_metrics_known :
      (ms : List (MetricInput fl.Float)) (subtotal : fl.Float) (rows : List (TierCharge fl.Float))
      (lines : List (MetricCharge fl.Float))
      → AllKnown ms
      → (s : fl.Float) × (b : List (TierCharge fl.Float)) × (out : List (MetricCharge fl.Float))
        × (rate_metrics fl lib ms subtotal rows lines ≡ some (s, b, out))
        × (map name_of out ≡ map name_of lines ++ metric_names ms)
  unfolding rate_metrics rate_metric
  rate_metrics_known [] subtotal rows lines h = (subtotal, rows, lines, refl, sym (append-nil _))
  rate_metrics_known (m ∷ rest) subtotal rows lines h =
      let ((raw, more), rated) = rate_as_known m.model m h.0 in
      let charge = round_cents fl raw in
      let line : MetricCharge fl.Float = record {
        name = m.name;
        model = m.model;
        units = m.units;
        charge = charge;
      } in
      let (s, b, out, went, names) =
        rate_metrics_known rest (fl.add subtotal charge) (rows ++ more) (lines ++ line ∷ []) h.1 in
      (
        s,
        b,
        out,
        rw (rated, rate_metrics) went,
        names
            ∙ (ap (λ xs. xs ++ metric_names rest) (map-append name_of lines (line ∷ []))
                ∙ append_assoc (map name_of lines) (m.name ∷ []) (metric_names rest)),
      )

  rate_metrics-some :
      (ms : List (MetricInput fl.Float)) (subtotal : fl.Float) (rows : List (TierCharge fl.Float))
      (lines : List (MetricCharge fl.Float))
      {out : fl.Float × List (TierCharge fl.Float) × List (MetricCharge fl.Float)}
      → rate_metrics fl lib ms subtotal rows lines ≡ some out
      → AllKnown ms
  unfolding rate_metrics rate_metric
  rate_metrics-some [] subtotal rows lines e = tt
  rate_metrics-some (m ∷ rest) subtotal rows lines e =
      elim (Option-cases (rate_as fl lib m.model m)) [
        | inl failed ↦
            let stops : rate_metrics fl lib (m ∷ rest) subtotal rows lines ≡ none =
              rw (failed, rate_metrics) refl in
            absurd cc
        | inr ((raw, more), rated) ↦
            let charge = round_cents fl raw in
            let line : MetricCharge fl.Float = record {
              name = m.name;
              model = m.model;
              units = m.units;
              charge = charge;
            } in
            let goes_on : rate_metrics fl lib (m ∷ rest) subtotal rows lines
                ≡ rate_metrics fl lib rest (fl.add subtotal charge) (rows ++ more)
                    (lines ++ line ∷ []) =
              rw (rated, rate_metrics) refl in
            (
              rate_as-some m.model m rated,
              rate_metrics-some rest (fl.add subtotal charge) (rows ++ more) (lines ++ line ∷ [])
                  (sym goes_on ∙ e),
            )
      ]

  -- The calculation succeeds, with one line for each metric in their order, used or not, exactly if every
  -- metric has a known model.
  pub calculate_metrics-AllKnown :
      (input : MetricsInputs fl.Float) (wallet_available : fl.Float)
      → ((r : CalcResult fl.Float) × (lines : List (MetricCharge fl.Float)) × (calculate_metrics fl
              lib input wallet_available
            ≡ some (r, lines))
          × (map name_of lines ≡ metric_names input.metrics))
        ↔ AllKnown input.metrics
  unfolding calculate_metrics
  calculate_metrics-AllKnown input avail = (
    λ billed. elim (Option-cases (rate_metrics fl lib input.metrics (fl.of_int 0) [] [])) [
      | inl failed ↦
          let nothing : calculate_metrics fl lib input avail ≡ none =
            rw (failed, calculate_metrics) refl in
          let (r, lines, is_some, names) = billed in absurd cc
      | inr (out, rated) ↦ rate_metrics-some input.metrics (fl.of_int 0) [] [] rated
    ],
    λ known.
        let (s, b, lines, rated, names) =
          rate_metrics_known input.metrics (fl.of_int 0) [] [] known in
        (
          finish fl lib s b input.discount input.tax_pct input.mode avail,
          lines,
          rw (rated, calculate_metrics) refl,
          names,
        ),
  )
