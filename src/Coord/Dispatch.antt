-- ===== src/Coord/Dispatch.antt =====
-- Dispatch of internal/coord/coordinator.go: one assignment for each worker, and what becomes of the
-- workers. The answers of the workers are an argument; their order in the errors is that of the fleet.
use aforo_nextgen_loadgen.Base.{
  Bool, ◌⊎◌, inl, inr, ℕ, zero, suc, String, Option, none, some, List, [], ◌∷◌, length, get_elem?,
  put, if◌then◌else◌,
}
use aforo_nextgen_loadgen.Coord.Partition.{
  PartitionError, chunks, error, chunk_at, partition_tenants,
}
use aforo_nextgen_loadgen.Coord.SplitTps.{split_tps}
use aforo_nextgen_loadgen.Coord.Poll.{WorkerState}
pub mod Outcome

pub record PartitionConfig : Type 0 where
  pub tenant_ids : List String
  pub scenario_yaml : String
  pub manifest_json : String
  pub target_name : String
  pub total_target_tps : ℕ
  pub duration_override : ℕ

pub record Assignment : Type 0 where
  pub run_id : String
  pub worker_id : String
  pub scenario_yaml : String
  pub manifest_json : String
  pub tenant_ids : List String
  pub target_name : String
  pub per_worker_target_tps : ℕ
  pub duration_override : ℕ
  pub now : ℕ

-- A worker of the fleet: workerState, with what the rounds of heartbeats read as `polled`.
pub record Worker : Type 0 where
  pub id : String
  pub assigned_tenants : List String
  pub polled : WorkerState

-- `cluster_error` is the rejections with the size of the fleet.
pub data DispatchError : Type 0 where
  no_partition : PartitionError → DispatchError
  no_worker_accepted : List (String × String) → DispatchError
  cluster_error : ℕ → List (String × String) → DispatchError

-- Acceptance, without its clock skew.
pub record Acceptance : Type 0 where
  pub is_accepted : Bool
  pub worker_id : String
  pub reason : String

-- WorkerClient.Assign, from what the call gives; `rejected` is the text of a rejection.
unfoldable pub assign :
    (String → String → String) → String → Acceptance ⊎ String → Acceptance ⊎ String
assign rejected addr (inr e) = inr e
assign rejected addr (inl rsp) = if rsp.is_accepted then inl rsp else inr (rejected addr rsp.reason)

pub record Dispatched : Type 0 where
  pub workers : List Worker
  pub accepted : List (String × Acceptance)
  pub rejections : List (String × String)

abbrev pub tps_at : List ℕ → ℕ → ℕ
tps_at tps i = elim (get_elem? tps i) [ none ↦ 0 | some k ↦ k ]

unfoldable pub assignment : String → PartitionConfig → ℕ → List String → ℕ → Worker → Assignment
assignment run_id pc now tenants tps w = record {
  run_id = run_id;
  worker_id = w.id;
  scenario_yaml = pc.scenario_yaml;
  manifest_json = pc.manifest_json;
  tenant_ids = tenants;
  target_name = pc.target_name;
  per_worker_target_tps = tps;
  duration_override = pc.duration_override;
  now = now;
}

unfoldable pub started : ℕ → List String → Worker → Worker
started now tenants w = record w {
  assigned_tenants = tenants;
  polled = record w.polled { state = "running"; last_heartbeat = some now };
}

-- What one worker's turn adds.
unfoldable pub settle : ℕ → List String → Worker → Acceptance ⊎ String → Dispatched → Dispatched
unfolding started
settle now tenants w (inl rsp) rest = record {
  workers = started now tenants w ∷ rest.workers;
  accepted = put w.polled.addr rsp rest.accepted;
  rejections = rest.rejections;
}
settle now tenants w (inr e) rest = record {
  workers = w ∷ rest.workers;
  accepted = rest.accepted;
  rejections = (w.polled.addr, e) ∷ rest.rejections;
}

module _ (rejected : String → String → String)
    (call : String → Assignment → Acceptance ⊎ String) where
  -- The workers from index `i` on.
  unfoldable pub assign_from :
      String → PartitionConfig → ℕ → List (List String) → List ℕ → ℕ → List Worker → Dispatched
  unfolding assignment settle assign
  assign_from run_id pc now cs tps i [] = record { workers = []; accepted = []; rejections = [] }
  assign_from run_id pc now cs tps i (w ∷ rest) =
      let later = assign_from run_id pc now cs tps (suc i) rest in
      let a = assignment run_id pc now (chunk_at cs i) (tps_at tps i) w in
      settle now (chunk_at cs i) w (assign rejected w.polled.addr (call w.polled.addr a)) later

unfoldable pub dispatch_error :
    ℕ → List (String × Acceptance) → List (String × String) → Option DispatchError
dispatch_error n [] rejections = some (no_worker_accepted rejections)
dispatch_error n (a ∷ accepted) [] = none
dispatch_error n (a ∷ accepted) (r ∷ rejections) = some (cluster_error n (r ∷ rejections))

unfoldable pub dispatch :
    (String → ℕ)
    → (List String → List String)
    → (String → String → String)
    → (String → Assignment → Acceptance ⊎ String)
    → String
    → PartitionConfig
    → ℕ
    → List Worker
    → Dispatched × Option DispatchError
unfolding assign_from dispatch_error
dispatch hash sort rejected call run_id pc now ws =
    elim (partition_tenants hash sort pc.tenant_ids (length ws)) [
      | error e ↦ (record { workers = ws; accepted = []; rejections = [] }, some (no_partition e))
      | chunks cs ↦
          let d =
            assign_from rejected call run_id pc now cs (split_tps pc.total_target_tps (length ws)) 0
              ws in
          (d, dispatch_error (length ws) d.accepted d.rejections)
    ]
