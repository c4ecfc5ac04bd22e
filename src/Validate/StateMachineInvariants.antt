-- ===== src/Validate/StateMachineInvariants.antt =====
-- internal/validate/state_machine_invariants.go, Check 10: no row of the transition log breaks the
-- state machine, and the platform has an audit row for what it shows. The backend's answers are the
-- argument `probe`: `none` where the read fails, else whether the last phase was recorded.
use aforo_nextgen_loadgen.Base.{
  ℕ, zero, suc, Bool, true, false, not, ◌&&◌, ◌||◌, String, Option, none, some, List, [], ◌∷◌, ◌++◌,
  length, is_key, leb, ltb, if◌then◌else◌,
}
use aforo_nextgen_loadgen.Lifecycle.StateMachine.{
  TransitionKind, can_fire_from, is_legal_transition,
}
use aforo_nextgen_loadgen.Lifecycle.Wire.{Strings, scenario_state}
use aforo_nextgen_loadgen.Lifecycle.TransitionLog.{
  TransitionRecord, TransitionStatus, pending, ok, fail, skipped, same_status,
}
pub mod Probes
pub mod Turn
pub mod Trace
pub mod Asked
pub mod Rows
pub mod Agent

pub data Reason : Type 0 where
  illegal_from forbidden_step audit_missing : Reason

pub record Violation : Type 0 where
  pub index : ℕ
  pub subscription_id : String
  pub transition : TransitionKind
  pub from_state : String
  pub expected_to : String
  pub reason : Reason

-- The body of the loop over the rows: whether the row is a violation, and of what.
unfoldable pub row_reason : Strings → TransitionRecord → Option Reason
unfolding same_status
row_reason lib t =
    if same_status t.transition_status skipped || same_status t.transition_status pending
    then none
    else if is_key t.from_state ""
    then none
    else if not (can_fire_from t.transition (scenario_state lib t.from_state))
    then some illegal_from
    else if not (is_key t.expected_post_state "")
        && same_status t.transition_status ok
        && not (
            is_legal_transition (scenario_state lib t.from_state)
              (scenario_state lib t.expected_post_state))
    then some forbidden_step
    else none

violation_of : ℕ → TransitionRecord → Reason → Violation
violation_of i t r = record {
  index = i;
  subscription_id = t.subscription_id;
  transition = t.transition;
  from_state = t.from_state;
  expected_to = t.expected_post_state;
  reason = r;
}

unfoldable pub row_violations : Strings → ℕ → List TransitionRecord → List Violation
unfolding violation_of
row_violations lib i [] = []
row_violations lib i (t ∷ rest) =
    let later = row_violations lib (suc i) rest in
    elim (row_reason lib t) [ none ↦ later | some r ↦ violation_of i t r ∷ later ]

unfoldable pub was_seen : String → List String → Bool
was_seen id [] = false
was_seen id (s ∷ rest) = is_key s id || was_seen id rest

pub record Audit : Type 0 where
  pub seen : List String
  pub checked : ℕ
  pub missing : ℕ
  pub found : List Violation

unfoldable pub audit_violation : TransitionRecord → Violation
audit_violation t = record {
  index = 0;
  subscription_id = t.subscription_id;
  transition = t.transition;
  from_state = "";
  expected_to = "";
  reason = audit_missing;
}

-- One read of the platform's view; `true` says that the row is on record.
unfoldable pub note_probe : Audit → TransitionRecord → Bool → Audit
unfolding audit_violation
note_probe a t true = record a { checked = suc a.checked }
note_probe a t false = record a {
  checked = suc a.checked;
  missing = suc a.missing;
  found = a.found ++ audit_violation t ∷ [];
}

-- The loop of part (d), which stops once fifty reads have answered.
unfoldable pub audit_rows : (String → String → Option Bool) → List TransitionRecord → Audit → Audit
unfolding was_seen note_probe same_status
audit_rows probe [] a = a
audit_rows probe (t ∷ rest) a =
    elim (not (same_status t.transition_status ok) || was_seen t.subscription_id a.seen) [
      | true ↦ audit_rows probe rest a
      | false ↦
          let a1 = record a { seen = t.subscription_id ∷ a.seen } in
          elim (probe t.tenant_id t.subscription_id) [
            | none ↦ audit_rows probe rest a1
            | some recorded ↦
                let a2 = note_probe a1 t recorded in
                elim (leb 50 a2.checked) [ true ↦ a2 | false ↦ audit_rows probe rest a2 ]
          ]
    ]

pub data CheckResult : Type 0 where
  skip : CheckResult
  fails : List Violation → CheckResult
  pass : CheckResult

abbrev pub no_audit : Audit
no_audit = record { seen = []; checked = 0; missing = 0; found = [] }

verdict : List Violation → CheckResult
verdict [] = pass
verdict (v ∷ vs) = fails (v ∷ vs)

check_rows : Strings → Option (String → String → Option Bool) → List TransitionRecord → CheckResult
unfolding verdict
check_rows lib none rows = verdict (row_violations lib 0 rows)
check_rows lib (some probe) rows =
    verdict (row_violations lib 0 rows ++ (audit_rows probe rows no_audit).found)

-- `backend` is `none` where there is no backend that reads subscriptions.
unfoldable pub run_state_machine_invariants :
    Strings → Option (String → String → Option Bool) → List TransitionRecord → CheckResult
unfolding check_rows
run_state_machine_invariants lib backend [] = skip
run_state_machine_invariants lib backend (t ∷ rest) = check_rows lib backend (t ∷ rest)
