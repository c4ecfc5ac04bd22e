-- ===== src/Billing/Outcomes.antt =====
-- Usage weighted by its outcome: internal/validate/billing/outcome_based.go. Go's range over a map
-- takes its keys in any order; here the order is that of the list.
use aforo_nextgen_loadgen.Base.{
  ℕ, zero, suc, Bool, true, false, not, ◌&&◌, ◌||◌, String, Option, none, some, List, [], ◌∷◌, find,
  put, is_key, if◌then◌else◌,
}
use aforo_nextgen_loadgen.Base.Floats.{Floats}
use aforo_nextgen_loadgen.Lifecycle.Wire.{Strings, normal}
use aforo_nextgen_loadgen.Billing.{OutcomeUsage}
use aforo_nextgen_loadgen.Billing.Linear.{round6}

pub record WeightedOutcomes (F : Type 0) : Type 0 where
  pub weighted : F
  pub unweighted : F

-- `is_null` is strings.EqualFold(t, "null").
unfoldable pub status_key : Strings → (String → Bool) → String → String
status_key lib is_null s =
    let t = lib.trim_space s in if is_key t "" || is_null t then "" else lib.to_upper t

unfoldable pub normalize_weights :
    {F : Type 0} → Strings → List (String × F) → List (String × F) → List (String × F)
normalize_weights lib [] out = out
normalize_weights lib ((k, v) ∷ rest) out =
    let key = normal lib k in
    normalize_weights lib rest (if is_key key "" then out else put key v out)

module _ (fl : Floats) where
  unfoldable pub has_outcome_usage : List (OutcomeUsage fl.Float) → Bool
  has_outcome_usage [] = false
  has_outcome_usage (o ∷ rest) =
      not (fl.eq o.quantity (fl.of_int 0))
      || not (fl.eq o.event_count (fl.of_int 0))
      || has_outcome_usage rest

  -- A status that has no weight counts once, and so does an event without a status.
  unfoldable pub weight_of : List (String × fl.Float) → String → fl.Float
  weight_of weights key =
      if is_key key ""
      then fl.of_int 1
      else elim (find key weights) [ none ↦ fl.of_int 1 | some w ↦ w ]

  module _ (lib : Strings) (is_null : String → Bool) where
    unfoldable pub add_outcomes :
        Bool
        → List (String × fl.Float)
        → List (OutcomeUsage fl.Float)
        → WeightedOutcomes fl.Float
        → WeightedOutcomes fl.Float
    unfolding weight_of status_key round6
    add_outcomes by_count weights [] res = record res { weighted = round6 fl res.weighted }
    add_outcomes by_count weights (o ∷ rest) res =
        let units = if by_count then o.event_count else o.quantity in
        let weight = weight_of weights (status_key lib is_null o.status) in
        add_outcomes by_count weights rest (record {
          weighted = fl.add res.weighted (round6 fl (fl.mul units weight));
          unweighted = fl.add res.unweighted units;
        })

    -- `none` is the result that is not ok.
    unfoldable pub weight_outcomes :
        List (OutcomeUsage fl.Float)
        → List (String × fl.Float)
        → String
        → Option (WeightedOutcomes fl.Float)
    unfolding normalize_weights add_outcomes
    weight_outcomes [] weights aggregation = none
    weight_outcomes (o ∷ rest) weights aggregation = elim (normalize_weights lib weights []) [
      | [] ↦ none
      | w ∷ ws ↦
          let agg = normal lib aggregation in
          if not (is_key agg "") && not (is_key agg "SUM") && not (is_key agg "COUNT")
          then none
          else some (
              add_outcomes (is_key agg "COUNT") (w ∷ ws) (o ∷ rest)
                (record { weighted = fl.of_int 0; unweighted = fl.of_int 0 }))
    ]

  abbrev pub outcome_row : String → fl.Float → OutcomeUsage fl.Float
  outcome_row status n = record { status = status; quantity = n; event_count = n }

  -- The rows of a mix, whose keys are in order, and what is left for events without a status.
  unfoldable pub mix_rows :
      fl.Float → List (String × fl.Float) → fl.Float → List (OutcomeUsage fl.Float)
  mix_rows total [] covered =
      let rest = fl.sub (fl.of_int 1) covered in
      if fl.lt (fl.quot (fl.of_int 1) (fl.of_int 1000000000)) rest
      then outcome_row "" (fl.mul total rest) ∷ []
      else []
  mix_rows total ((k, share) ∷ more) covered = elim (fl.le share (fl.of_int 0)) [
    | true ↦ mix_rows total more covered
    | false ↦ outcome_row k (fl.mul total share) ∷ mix_rows total more (fl.add covered share)
  ]

  -- `sort_keys` puts the entries of the map in the order of their keys.
  unfoldable pub expected_outcomes :
      (List (String × fl.Float) → List (String × fl.Float))
      → ℕ
      → List (String × fl.Float)
      → List (OutcomeUsage fl.Float)
  unfolding mix_rows
  expected_outcomes sort_keys zero mix = []
  expected_outcomes sort_keys (suc n) mix =
      mix_rows (fl.of_int (suc n)) (sort_keys mix) (fl.of_int 0)
