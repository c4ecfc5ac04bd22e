-- ===== src/Examples/Dispatch.antt =====
-- A fleet of two workers, of which one rejects its assignment (internal/coord/coordinator.go).
use aforo_nextgen_loadgen.Base.{
  ◌⊎◌, inl, ℕ, ◌≡◌, refl, true, false, String, Option, none, some, List, [], ◌∷◌, map, is_key, put,
  if◌then◌else◌,
}
use aforo_nextgen_loadgen.Coord.Partition.{partition_tenants}
use aforo_nextgen_loadgen.Coord.Poll.{is_terminal_state, poll_once, after_rounds}
use aforo_nextgen_loadgen.Coord.Dispatch.{
  PartitionConfig, Assignment, Worker, Acceptance, cluster_error, assign, dispatch,
}
use aforo_nextgen_loadgen.Coord.Dispatch.Outcome.{IsRejected, rejected_never_ends}

abbrev worker : String → String → Worker
worker id addr = record {
  id = id;
  assigned_tenants = [];
  polled = record { addr = addr; last_heartbeat = none; state = ""; dropout_logged = false };
}

abbrev fleet : List Worker
fleet = worker "worker-0" "a" ∷ worker "worker-1" "b" ∷ []

abbrev config : PartitionConfig
config = record {
  tenant_ids = "acme" ∷ "globex" ∷ [];
  scenario_yaml = "";
  manifest_json = "";
  target_name = "local";
  total_target_tps = 7;
  duration_override = 0;
}

-- Worker "b" is busy.
abbrev answers : String → Assignment → Acceptance ⊎ String
answers addr a =
    if is_key addr "a"
    then inl (record { is_accepted = true; worker_id = a.worker_id; reason = "" })
    else inl (record { is_accepted = false; worker_id = a.worker_id; reason = "busy" })

abbrev text : String → String → String
text addr reason = reason

abbrev code : String → ℕ
code id = if is_key id "acme" then 0 else 1

-- The tenants of the two workers afterwards, and the error.
half_dispatched :
    (map
        (λ (w : Worker). w.assigned_tenants)
        (dispatch code (λ xs. xs) text answers "run" config 9 fleet).0.workers
      ≡ ("acme" ∷ []) ∷ [] ∷ [])
    × ((dispatch code (λ xs. xs) text answers "run" config 9 fleet).1
        ≡ some (cluster_error 2 (("b", "busy") ∷ [])))
unfolding dispatch partition_tenants put
half_dispatched = (refl, refl)

busy-IsRejected : IsRejected text answers "b"
unfolding assign
busy-IsRejected a = ("busy", refl)

-- Worker "a" is done in each round.
abbrev done_or_silent : String → Option String
done_or_silent addr = if is_key addr "a" then some "done" else none

rejected_never_ends_example :
    (poll_once 30 90 done_or_silent (
      after_rounds 30 ((20, done_or_silent) ∷ (80, done_or_silent) ∷ []) (
        map
          (λ (v : Worker). v.polled)
          (dispatch code (λ xs. xs) text answers "run" config 9 fleet).0.workers))).0
    ≡ false
unfolding is_terminal_state
rejected_never_ends_example =
    rejected_never_ends text answers code (λ xs. xs) "run" config 9 fleet 1 (worker "worker-1" "b")
      30 ((20, done_or_silent) ∷ (80, done_or_silent) ∷ []) 90 done_or_silent refl (refl, refl)
      busy-IsRejected (refl, (refl, tt)) refl
