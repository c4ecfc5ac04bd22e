-- ===== src/Coord/Dispatch/Outcome.antt =====
-- What becomes of a worker that rejects its assignment (internal/coord/coordinator.go).
use aforo_nextgen_loadgen.Base.{
  ◌⊎◌, inl, inr, ℕ, zero, suc, ◌≡◌, refl, sym, ap, ◌∙◌, subst, Bool, false, String, Option, none,
  some, List, [], ◌∷◌, map, All, arith, length, get_elem?, ◌&&◌,
}
use aforo_nextgen_loadgen.Coord.Partition.{
  Partitioned, PartitionError, chunk_at, chunks, error, partition_tenants,
}
use aforo_nextgen_loadgen.Coord.SplitTps.{split_tps}
use aforo_nextgen_loadgen.Coord.Poll.{
  WorkerState, is_terminal_state, is_overdue, heartbeat_one, all_terminal, ask_all, poll_once,
  after_rounds, get_elem?-ask_all,
}
use aforo_nextgen_loadgen.Coord.Dispatch.{
  PartitionConfig, Assignment, Worker, Acceptance, Dispatched, assign, settle, assign_from,
  dispatch, tps_at, assignment,
}

-- Neither at its end nor ever heard.
abbrev pub IsUnheard : WorkerState → Type 0
IsUnheard w = (is_terminal_state w.state ≡ false) × (w.last_heartbeat ≡ none)

abbrev pub IsSilent : String → List (ℕ × (String → Option String)) → Type 0
IsSilent addr rounds = All (λ (r : ℕ × (String → Option String)). r.1 addr ≡ none) rounds

-- Whatever it is asked to do.
abbrev pub IsRejected :
    (String → String → String) → (String → Assignment → Acceptance ⊎ String) → String → Type 0
IsRejected rejected call addr =
    (a : Assignment) → (m : String) × (assign rejected addr (call addr a) ≡ inr m)

polled_of : List Worker → List WorkerState
polled_of ws = map (λ (w : Worker). w.polled) ws

and_false : (b : Bool) → (b && false) ≡ false
and_false b = ground arith

-- Whether the worker that was looked up is at its end.
abbrev still : WorkerState → Option WorkerState → Bool
still w none = is_terminal_state w.state
still w (some v) = is_terminal_state v.state

all_terminal-false :
    (ws : List WorkerState) (i : ℕ) (w : WorkerState)
    → get_elem? ws i ≡ some w
    → is_terminal_state w.state ≡ false
    → all_terminal ws ≡ false
unfolding all_terminal
all_terminal-false [] i w at open_state = absurd cc
all_terminal-false (v ∷ ws) zero w at open_state =
    let first : is_terminal_state v.state ≡ false = ap (still w) at ∙ open_state in
    rw (first, all_terminal) refl
all_terminal-false (v ∷ ws) (suc i) w at open_state =
    rw (all_terminal-false ws i w at open_state) (and_false (is_terminal_state v.state))

heartbeat_one-IsUnheard :
    (timeout now : ℕ) (w : WorkerState) → IsUnheard w → heartbeat_one timeout now none w ≡ w
unfolding heartbeat_one is_overdue
heartbeat_one-IsUnheard timeout now w h = rw (h.0, heartbeat_one) (rw h.1 refl)

after_rounds-IsUnheard :
    (timeout : ℕ) (rounds : List (ℕ × (String → Option String))) (ws : List WorkerState) (i : ℕ)
    (w : WorkerState)
    → get_elem? ws i ≡ some w
    → IsUnheard w
    → IsSilent w.addr rounds
    → get_elem? (after_rounds timeout rounds ws) i ≡ some w
unfolding after_rounds poll_once
after_rounds-IsUnheard timeout [] ws i w at h silent = at
after_rounds-IsUnheard timeout ((now, answer) ∷ rest) ws i w at h silent =
    after_rounds-IsUnheard timeout rest (ask_all timeout now answer ws) i w
      (get_elem?-ask_all timeout now answer ws i w at
        ∙ ap (λ a. some (heartbeat_one timeout now a w)) silent.0
        ∙ ap some (heartbeat_one-IsUnheard timeout now w h))
      h silent.1

abbrev found_or : Worker → Option Worker → Worker
found_or w none = w
found_or w (some v) = v

settle-rejected :
    (now : ℕ) (tenants : List String) (w : Worker) (answer : Acceptance ⊎ String)
    (rest : Dispatched) (m : String)
    → answer ≡ inr m
    → (settle now tenants w answer rest).workers ≡ w ∷ rest.workers
unfolding settle
settle-rejected now tenants w answer rest m e = rw e refl

settle-later :
    (now : ℕ) (tenants : List String) (w : Worker) (answer : Acceptance ⊎ String)
    (rest : Dispatched) (i : ℕ)
    → get_elem? (settle now tenants w answer rest).workers (suc i) ≡ get_elem? rest.workers i
unfolding settle
settle-later now tenants w (inl rsp) rest i = refl
settle-later now tenants w (inr m) rest i = refl

get_elem?-polled_of :
    (ws : List Worker) (i : ℕ) (w : Worker)
    → get_elem? ws i ≡ some w
    → get_elem? (polled_of ws) i ≡ some w.polled
unfolding polled_of
get_elem?-polled_of [] i w at = absurd cc
get_elem?-polled_of (v ∷ ws) zero w at = ap (λ o. some (found_or w o).polled) at
get_elem?-polled_of (v ∷ ws) (suc i) w at = get_elem?-polled_of ws i w at

module _ (rejected : String → String → String)
    (call : String → Assignment → Acceptance ⊎ String) where
  assign_from-IsRejected :
      (run_id : String) (pc : PartitionConfig) (now : ℕ) (cs : List (List String)) (tps : List ℕ)
      (j : ℕ) (ws : List Worker) (i : ℕ) (w : Worker)
      → get_elem? ws i ≡ some w
      → IsRejected rejected call w.polled.addr
      → get_elem? (assign_from rejected call run_id pc now cs tps j ws).workers i ≡ some w
  unfolding assign_from settle
  assign_from-IsRejected run_id pc now cs tps j [] i w at refuses = absurd cc
  assign_from-IsRejected run_id pc now cs tps j (v ∷ ws) zero w at refuses =
      let same : v ≡ w = ap (found_or w) at in
      let (m, is_rejected) = refuses (assignment run_id pc now (chunk_at cs j) (tps_at tps j) w) in
      subst
        (λ u.
          get_elem? (assign_from rejected call run_id pc now cs tps j (u ∷ ws)).workers 0 ≡ some w)
        (sym same)
        (ap (λ us. get_elem? us 0) (settle-rejected now (chunk_at cs j) w _ _ m is_rejected))
  assign_from-IsRejected run_id pc now cs tps j (v ∷ ws) (suc i) w at refuses =
      settle-later now (chunk_at cs j) v _ _ i
      ∙ assign_from-IsRejected run_id pc now cs tps (suc j) ws i w at refuses

  Partitioned-cases :
      (p : Partitioned)
      → ((cs : List (List String)) × (p ≡ chunks cs)) ⊎ ((e : PartitionError) × (p ≡ error e))
  Partitioned-cases (chunks cs) = inl (cs, refl)
  Partitioned-cases (error e) = inr (e, refl)

  dispatch-IsRejected :
      (hash : String → ℕ) (sort : List String → List String) (run_id : String)
      (pc : PartitionConfig) (now : ℕ) (ws : List Worker) (i : ℕ) (w : Worker)
      → get_elem? ws i ≡ some w
      → IsRejected rejected call w.polled.addr
      → get_elem? (dispatch hash sort rejected call run_id pc now ws).0.workers i ≡ some w
  unfolding dispatch
  dispatch-IsRejected hash sort run_id pc now ws i w at refuses =
      elim (Partitioned-cases (partition_tenants hash sort pc.tenant_ids (length ws))) [
        | inl (cs, split) ↦
            rw (split, dispatch)
              (assign_from-IsRejected run_id pc now cs (split_tps pc.total_target_tps (length ws)) 0
                ws i w at refuses)
        | inr (e, wrong) ↦ rw (wrong, dispatch) at
      ]

  -- A worker that rejects its assignment, was never heard before and answers no heartbeat is never marked as
  -- dropped, so that no round, however late, finds every worker at its end: PollUntilDone then goes on until
  -- its context is cancelled.
  pub rejected_never_ends :
      (hash : String → ℕ) (sort : List String → List String) (run_id : String)
      (pc : PartitionConfig) (now : ℕ) (ws : List Worker) (i : ℕ) (w : Worker) (timeout : ℕ)
      (rounds : List (ℕ × (String → Option String))) (last : ℕ) (answer : String → Option String)
      → get_elem? ws i ≡ some w
      → IsUnheard w.polled
      → IsRejected rejected call w.polled.addr
      → IsSilent w.polled.addr rounds
      → answer w.polled.addr ≡ none
      → let polled =
          map
            (λ (v : Worker). v.polled)
            (dispatch hash sort rejected call run_id pc now ws).0.workers in
        (poll_once timeout last answer (after_rounds timeout rounds polled)).0 ≡ false
  unfolding poll_once polled_of
  rejected_never_ends hash sort run_id pc now ws i w timeout rounds last answer at unheard refuses
        silent quiet =
      let kept = dispatch-IsRejected hash sort run_id pc now ws i w at refuses in
      let polled = get_elem?-polled_of _ i w kept in
      let later = after_rounds-IsUnheard timeout rounds _ i w.polled polled unheard silent in
      all_terminal-false _ i w.polled
        (get_elem?-ask_all timeout last answer _ i w.polled later
          ∙ ap (λ a. some (heartbeat_one timeout last a w.polled)) quiet
          ∙ ap some (heartbeat_one-IsUnheard timeout last w.polled unheard))
        unheard.0
