-- ===== src/Coord/Reports/Order.antt =====
-- The merged totals do not depend on which worker answers first (internal/coord/coordinator.go).
use native.Mathlib.Nat.{ℕ_set}
use mathlib.Core.List.{Perm, foldr}
use mathlib.Core.List.Perm
use aforo_nextgen_loadgen.Base.{
  ℕ, ◌+◌, ◌≡◌, refl, ap, ◌∙◌, inl, inr, String, List, [], ◌∷◌, length, put, is_key, find-put,
  is_key_eq, arith, if◌then◌else◌, Bool-cases,
}
use aforo_nextgen_loadgen.Base.Floats.{Floats}
use aforo_nextgen_loadgen.Coord.Reports.{
  Counters, Breakdown, Report, AggregateResult, count_in, add_counts, add_counters, add_breakdown,
  add_report, add_reports, empty_result, merge_reports,
}

-- All that a list of counts says about a key.
abbrev pub entries_of : String → List (String × ℕ) → ℕ
entries_of k [] = 0
entries_of k ((j, v) ∷ rest) = let more = entries_of k rest in if is_key j k then v + more else more

count_in-add_counts :
    (k : String) (more m : List (String × ℕ))
    → count_in k (add_counts more m) ≡ count_in k m + entries_of k more
unfolding count_in add_counts
count_in-add_counts k [] m = omega arith
count_in-add_counts k ((j, v) ∷ more) m = elim (Bool-cases (is_key j k)) [
  | inl same ↦
      let read : count_in k (put j (count_in j m + v) m) ≡ count_in j m + v =
        rw (find-put j k (count_in j m + v) m, count_in) (rw same refl) in
      let one : count_in j m ≡ count_in k m = ap (λ i. count_in i m) (is_key_eq j k same) in
      rw same (omega (arith, count_in-add_counts k more (put j (count_in j m + v) m), read, one))
  | inr other ↦
      let read : count_in k (put j (count_in j m + v) m) ≡ count_in k m =
        rw (find-put j k (count_in j m + v) m, count_in) (rw other refl) in
      rw other (omega (arith, count_in-add_counts k more (put j (count_in j m + v) m), read))
]

module _ (fl : Floats) where
  abbrev sum_of : (Report fl.Float → ℕ) → List (Report fl.Float) → ℕ
  sum_of f rs = foldr (λ r n. f r + n) 0 rs

  -- A total that each report adds to.
  total_is_sum :
      (total : AggregateResult fl.Float → ℕ) (part : Report fl.Float → ℕ)
      → ((out : AggregateResult fl.Float) (r : Report fl.Float)
          → total (add_report fl out r) ≡ total out + part r)
      → (out : AggregateResult fl.Float) (rs : List (Report fl.Float))
      → total (add_reports fl out rs) ≡ total out + sum_of part rs
  unfolding add_reports
  total_is_sum total part step out [] = omega arith
  total_is_sum total part step out (r ∷ rs) =
      omega (arith, total_is_sum total part step (add_report fl out r) rs, step out r)

  sum_of-Perm :
      (part : Report fl.Float → ℕ) (rs ss : List (Report fl.Float))
      → Perm rs ss
      → sum_of part rs ≡ sum_of part ss
  sum_of-Perm part rs ss p =
      Perm.foldr-eq ℕ_set (λ (r : Report fl.Float) (n : ℕ). part r + n) (λ a b x. omega arith) p 0

  merged-Perm :
      (total : AggregateResult fl.Float → ℕ) (part : Report fl.Float → ℕ)
      → ((out : AggregateResult fl.Float) (r : Report fl.Float)
          → total (add_report fl out r) ≡ total out + part r)
      → (out other : AggregateResult fl.Float) (rs ss : List (Report fl.Float))
      → total out ≡ total other
      → Perm rs ss
      → total (add_reports fl out rs) ≡ total (add_reports fl other ss)
  merged-Perm total part step out other rs ss same p = omega (
    arith,
    total_is_sum total part step out rs,
    total_is_sum total part step other ss,
    sum_of-Perm part rs ss p,
  )

  -- Both results have the same totals, and in each breakdown the same count for the key.
  abbrev pub IsSameFor : String → AggregateResult fl.Float → AggregateResult fl.Float → Type 0
  IsSameFor k a b =
      (a.counters.events_generated ≡ b.counters.events_generated)
      × (a.counters.events_submitted ≡ b.counters.events_submitted)
      × (a.counters.events_succeeded ≡ b.counters.events_succeeded)
      × (a.counters.events_failed ≡ b.counters.events_failed)
      × (a.counters.client_errors ≡ b.counters.client_errors)
      × (a.counters.server_errors ≡ b.counters.server_errors)
      × (a.counters.transport_errors ≡ b.counters.transport_errors)
      × (count_in k a.breakdown.per_archetype ≡ count_in k b.breakdown.per_archetype)
      × (count_in k a.breakdown.per_product_type ≡ count_in k b.breakdown.per_product_type)
      × (count_in k a.breakdown.per_ingestion_path ≡ count_in k b.breakdown.per_ingestion_path)

  -- In whichever order the same reports come in, the merge has the same seven totals, and each key of the
  -- three breakdowns has the same count.
  pub merge_reports-IsSameFor :
      (k run_id : String) (rs ss : List (Report fl.Float)) (dropouts : List String)
      → Perm rs ss
      → IsSameFor k (merge_reports fl run_id rs dropouts) (merge_reports fl run_id ss dropouts)
  unfolding merge_reports empty_result add_report count_in
  merge_reports-IsSameFor k run_id rs ss dropouts p =
      let out = empty_result fl run_id (length rs) dropouts in
      let other = empty_result fl run_id (length ss) dropouts in
      let counter : (part : Counters → ℕ)
          → ((a b : Counters) → part (add_counters a b) ≡ part a + part b)
          → part (add_reports fl out rs).counters ≡ part (add_reports fl other ss).counters =
        λ part adds.
          merged-Perm (λ (o : AggregateResult fl.Float). part o.counters) (λ r. part r.counters)
            (λ o r. adds o.counters r.counters) out other rs ss refl p in
      let counts : (part : Breakdown → List (String × ℕ))
          → ((a b : Breakdown) → part (add_breakdown a b) ≡ add_counts (part b) (part a))
          → count_in k (part out.breakdown) ≡ count_in k (part other.breakdown)
          → count_in k (part (add_reports fl out rs).breakdown)
            ≡ count_in k (part (add_reports fl other ss).breakdown) =
        λ part adds same.
          merged-Perm (λ (o : AggregateResult fl.Float). count_in k (part o.breakdown))
            (λ r. entries_of k (part r.breakdown))
            (λ o r.
              ap (count_in k) (adds o.breakdown r.breakdown)
              ∙ count_in-add_counts k (part r.breakdown) (part o.breakdown))
            out other rs ss same p in
      (
        counter (λ (c : Counters). c.events_generated) (λ a b. refl),
        counter (λ (c : Counters). c.events_submitted) (λ a b. refl),
        counter (λ (c : Counters). c.events_succeeded) (λ a b. refl),
        counter (λ (c : Counters). c.events_failed) (λ a b. refl),
        counter (λ (c : Counters). c.client_errors) (λ a b. refl),
        counter (λ (c : Counters). c.server_errors) (λ a b. refl),
        counter (λ (c : Counters). c.transport_errors) (λ a b. refl),
        counts (λ (c : Breakdown). c.per_archetype) (λ a b. refl) refl,
        counts (λ (c : Breakdown). c.per_product_type) (λ a b. refl) refl,
        counts (λ (c : Breakdown). c.per_ingestion_path) (λ a b. refl) refl,
      )
