-- ===== src/Examples/Reports.antt =====
-- Two reports of workers (internal/coord/coordinator.go), merged in both orders.
use mathlib.Core.List.Perm
use aforo_nextgen_loadgen.Base.{ℕ, ◌+◌, ◌≡◌, refl, String, [], ◌∷◌, some, find, put}
use aforo_nextgen_loadgen.Examples.Fractions.{whole}
use aforo_nextgen_loadgen.Coord.Reports.{
  Report, reported, unavailable, dropped, merge_reports, aggregate_reports, count_in,
}
use aforo_nextgen_loadgen.Coord.Reports.Order.{IsSameFor, merge_reports-IsSameFor}

abbrev report : String → ℕ → String → ℕ → Report ℕ
report worker_id started_at archetype events = record {
  worker_id = worker_id;
  started_at = started_at;
  stopped_at = started_at + 60;
  counters = record {
    events_generated = events;
    events_submitted = events;
    events_succeeded = events;
    events_failed = 0;
    client_errors = 0;
    server_errors = 0;
    transport_errors = 0;
  };
  latencies = record { p50_ms = events; p90_ms = events; p99_ms = events; max_ms = events };
  breakdown = record {
    per_archetype = (archetype, events) ∷ [];
    per_product_type = [];
    per_ingestion_path = [];
  };
}

-- A worker whose report cannot be had is in neither count of workers.
one_of_three :
    (aggregate_reports whole "run"
      (reported (report "w0" 5 "api" 7) ∷ unavailable ∷ dropped "10.0.0.3:9443" ∷ [])).workers
    ≡ 2
unfolding aggregate_reports
one_of_three = refl

sums_and_worst :
    let out = merge_reports whole "run" (report "w0" 5 "api" 7 ∷ report "w1" 3 "api" 4 ∷ []) [] in
    (out.counters.events_generated ≡ 11)
    × (out.latencies.max_ms ≡ 7)
    × (out.started_at ≡ some 3)
    × (count_in "api" out.breakdown.per_archetype ≡ 11)
unfolding merge_reports count_in find put
sums_and_worst = (refl, refl, refl, refl)

merge_reports-IsSameFor_example :
    IsSameFor whole "api"
      (merge_reports whole "run" (report "w1" 3 "api" 4 ∷ report "w0" 5 "api" 7 ∷ []) [])
      (merge_reports whole "run" (report "w0" 5 "api" 7 ∷ report "w1" 3 "api" 4 ∷ []) [])
merge_reports-IsSameFor_example =
    merge_reports-IsSameFor whole "api" "run" (report "w1" 3 "api" 4 ∷ report "w0" 5 "api" 7 ∷ [])
      (report "w0" 5 "api" 7 ∷ report "w1" 3 "api" 4 ∷ []) []
      (Perm.swap (report "w0" 5 "api" 7) (report "w1" 3 "api" 4) [])
