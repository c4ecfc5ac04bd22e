-- ===== src/Coord/Reports.antt =====
-- mergeReports and AggregateReports of internal/coord/coordinator.go: one view of the cluster from the
-- reports of its workers. Counters are not negative and do not overflow; times are
-- nanoseconds. The fields of Report and AggregateResult stand in three groups; what the merge does not read
-- of a report (its run, whether it was aborted, its errors) is left out.
use aforo_nextgen_loadgen.Base.{
  ℕ, zero, suc, ◌+◌, Bool, true, false, String, Option, none, some, List, [], ◌∷◌, ◌++◌, length,
  find, put, is_key, ltb, if◌then◌else◌,
}
use aforo_nextgen_loadgen.Base.Floats.{Floats}
pub mod Order

pub record Counters : Type 0 where
  pub events_generated : ℕ
  pub events_submitted : ℕ
  pub events_succeeded : ℕ
  pub events_failed : ℕ
  pub client_errors : ℕ
  pub server_errors : ℕ
  pub transport_errors : ℕ

pub record Latencies (F : Type 0) : Type 0 where
  pub p50_ms : F
  pub p90_ms : F
  pub p99_ms : F
  pub max_ms : F

pub record Breakdown : Type 0 where
  pub per_archetype : List (String × ℕ)
  pub per_product_type : List (String × ℕ)
  pub per_ingestion_path : List (String × ℕ)

pub record Report (F : Type 0) : Type 0 where
  pub worker_id : String
  pub started_at : ℕ
  pub stopped_at : ℕ
  pub counters : Counters
  pub latencies : Latencies F
  pub breakdown : Breakdown

pub record AggregateResult (F : Type 0) : Type 0 where
  pub run_id : String
  pub started_at : Option ℕ
  pub stopped_at : Option ℕ
  pub workers : ℕ
  pub workers_reported : ℕ
  pub workers_dropped : List String
  pub counters : Counters
  pub latencies : Latencies F
  pub breakdown : Breakdown
  pub per_worker : List (String × Report F)

-- What one worker's turn gives: it was dropped before, its report could not be had, or its report.
pub data Fetched (F : Type 0) : Type 0 where
  dropped : String → Fetched F
  unavailable : Fetched F
  reported : Report F → Fetched F

unfoldable pub count_in : String → List (String × ℕ) → ℕ
count_in k m = elim (find k m) [ none ↦ 0 | some v ↦ v ]

-- for k, v := range more { m[k] += v }
unfoldable pub add_counts : List (String × ℕ) → List (String × ℕ) → List (String × ℕ)
unfolding count_in
add_counts [] m = m
add_counts ((k, v) ∷ more) m = add_counts more (put k (count_in k m + v) m)

unfoldable pub add_counters : Counters → Counters → Counters
add_counters a b = record {
  events_generated = a.events_generated + b.events_generated;
  events_submitted = a.events_submitted + b.events_submitted;
  events_succeeded = a.events_succeeded + b.events_succeeded;
  events_failed = a.events_failed + b.events_failed;
  client_errors = a.client_errors + b.client_errors;
  server_errors = a.server_errors + b.server_errors;
  transport_errors = a.transport_errors + b.transport_errors;
}

unfoldable pub add_breakdown : Breakdown → Breakdown → Breakdown
unfolding add_counts
add_breakdown a b = record {
  per_archetype = add_counts b.per_archetype a.per_archetype;
  per_product_type = add_counts b.per_product_type a.per_product_type;
  per_ingestion_path = add_counts b.per_ingestion_path a.per_ingestion_path;
}

-- The first report gives both times; `none` is the zero time.
unfoldable pub earlier : Option ℕ → ℕ → Option ℕ
earlier none t = some t
earlier (some s) t = some (if ltb t s then t else s)

unfoldable pub later : Option ℕ → ℕ → Option ℕ
later none t = some t
later (some s) t = some (if ltb s t then t else s)

module _ (fl : Floats) where
  unfoldable pub worse : fl.Float → fl.Float → fl.Float
  worse a b = if fl.lt a b then b else a

  unfoldable pub worst : Latencies fl.Float → Latencies fl.Float → Latencies fl.Float
  unfolding worse
  worst a b = record {
    p50_ms = worse a.p50_ms b.p50_ms;
    p90_ms = worse a.p90_ms b.p90_ms;
    p99_ms = worse a.p99_ms b.p99_ms;
    max_ms = worse a.max_ms b.max_ms;
  }

  unfoldable pub add_report : AggregateResult fl.Float → Report fl.Float → AggregateResult fl.Float
  unfolding add_counters add_breakdown earlier later worst
  add_report out r = record out {
    started_at = earlier out.started_at r.started_at;
    stopped_at = later out.stopped_at r.stopped_at;
    counters = add_counters out.counters r.counters;
    latencies = worst out.latencies r.latencies;
    breakdown = add_breakdown out.breakdown r.breakdown;
    per_worker = put r.worker_id r out.per_worker;
  }

  unfoldable pub add_reports :
      AggregateResult fl.Float → List (Report fl.Float) → AggregateResult fl.Float
  unfolding add_report
  add_reports out [] = out
  add_reports out (r ∷ rest) = add_reports (add_report out r) rest

  unfoldable pub empty_result : String → ℕ → List String → AggregateResult fl.Float
  empty_result run_id n dropouts = record {
    run_id = run_id;
    started_at = none;
    stopped_at = none;
    workers = n + length dropouts;
    workers_reported = n;
    workers_dropped = dropouts;
    counters = record {
      events_generated = 0;
      events_submitted = 0;
      events_succeeded = 0;
      events_failed = 0;
      client_errors = 0;
      server_errors = 0;
      transport_errors = 0;
    };
    latencies = record {
      p50_ms = fl.of_int 0;
      p90_ms = fl.of_int 0;
      p99_ms = fl.of_int 0;
      max_ms = fl.of_int 0;
    };
    breakdown = record { per_archetype = []; per_product_type = []; per_ingestion_path = [] };
    per_worker = [];
  }

  unfoldable pub merge_reports :
      String → List (Report fl.Float) → List String → AggregateResult fl.Float
  unfolding add_reports empty_result
  merge_reports run_id reports dropouts =
      add_reports (empty_result run_id (length reports) dropouts) reports

  -- The reports come in the order in which the fetches end.
  unfoldable pub collect :
      List (Fetched fl.Float)
      → List (Report fl.Float)
      → List String
      → List (Report fl.Float) × List String
  collect [] reports dropouts = (reports, dropouts)
  collect (dropped addr ∷ rest) reports dropouts = collect rest reports (dropouts ++ addr ∷ [])
  collect (unavailable ∷ rest) reports dropouts = collect rest reports dropouts
  collect (reported r ∷ rest) reports dropouts = collect rest (reports ++ r ∷ []) dropouts

  unfoldable pub aggregate_reports : String → List (Fetched fl.Float) → AggregateResult fl.Float
  unfolding collect merge_reports
  aggregate_reports run_id fetched =
      let (reports, dropouts) = collect fetched [] [] in merge_reports run_id reports dropouts
