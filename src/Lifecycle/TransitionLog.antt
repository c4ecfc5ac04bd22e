-- ===== src/Lifecycle/TransitionLog.antt =====
-- internal/lifecycle/transition_log.go: the append-only log of the agent and its roll-up. The writer
-- is the list of the results that its next writes will have; past its end every write succeeds.
-- Timestamps, durations and the pro-ration credit are left out: no operation here reads them.
use aforo_nextgen_loadgen.Base.{
  ℕ, suc, Bool, true, false, ◌&&◌, not, String, Option, none, some, List, [], ◌∷◌, ◌++◌, length,
  ltb, is_key, if◌then◌else◌,
}
use aforo_nextgen_loadgen.Lifecycle.State.{SubscriptionState}
use aforo_nextgen_loadgen.Lifecycle.StateMachine.{
  TransitionKind, upgrade, downgrade, pause, resume, trial_conversion, trial_cancel, migrate,
  retry_payment, dunning_step, dunning_escalate, unknown,
}
pub mod Rollup

pub data TransitionStatus : Type 0 where
  pending ok fail skipped : TransitionStatus

pub record TransitionRecord : Type 0 where
  pub subscription_id : String
  pub tenant_id : String
  pub customer_id : String
  pub archetype : String
  pub transition : TransitionKind
  pub from_state : String
  pub expected_post_state : String
  pub from_offering : String
  pub to_offering : String
  pub idempotency_key : String
  pub transition_status : TransitionStatus
  pub http_status : ℕ
  pub error : String
  pub dunning_attempt : ℕ

unfoldable pub same_status : TransitionStatus → TransitionStatus → Bool
same_status pending pending = true
same_status ok ok = true
same_status fail fail = true
same_status skipped skipped = true
same_status _ _ = false

unfoldable pub same_kind : TransitionKind → TransitionKind → Bool
same_kind upgrade upgrade = true
same_kind downgrade downgrade = true
same_kind pause pause = true
same_kind resume resume = true
same_kind trial_conversion trial_conversion = true
same_kind trial_cancel trial_cancel = true
same_kind migrate migrate = true
same_kind retry_payment retry_payment = true
same_kind dunning_step dunning_step = true
same_kind dunning_escalate dunning_escalate = true
same_kind (unknown a) (unknown b) = is_key a b
same_kind _ _ = false

pub record TransitionLog : Type 0 where
  pub rows : List TransitionRecord
  pub faults : List (Option String)
  pub count : ℕ
  pub by_kind : TransitionKind → ℕ
  pub by_status : TransitionStatus → ℕ
  pub fail_reasons : TransitionKind → List String

-- NewTransitionLogTo
unfoldable pub new_log : List (Option String) → TransitionLog
new_log faults = record {
  rows = [];
  faults = faults;
  count = 0;
  by_kind = λ k. 0;
  by_status = λ s. 0;
  fail_reasons = λ k. [];
}

unfoldable pub add_reason :
    TransitionRecord → (TransitionKind → List String) → TransitionKind → List String
add_reason rec reasons k =
    if same_status rec.transition_status fail
      && not (is_key rec.error "")
      && ltb (length (reasons rec.transition)) 10
      && same_kind k rec.transition
    then reasons k ++ rec.error ∷ []
    else reasons k

unfoldable pub wrote : TransitionLog → List (Option String) → TransitionRecord → TransitionLog
unfolding same_status same_kind add_reason
wrote l faults rec = record {
  rows = l.rows ++ rec ∷ [];
  faults = faults;
  count = suc l.count;
  by_kind = λ k. if same_kind k rec.transition then suc (l.by_kind k) else l.by_kind k;
  by_status =
      λ s. if same_status s rec.transition_status then suc (l.by_status s) else l.by_status s;
  fail_reasons = add_reason rec l.fail_reasons;
}

unfoldable pub append_to :
    TransitionLog → List (Option String) → TransitionRecord → TransitionLog × Option String
unfolding wrote
append_to l [] rec = (wrote l [] rec, none)
append_to l (none ∷ faults) rec = (wrote l faults rec, none)
append_to l (some e ∷ faults) rec = (record l { faults = faults }, some e)

-- Append: the log afterwards, and the write's error if it failed.
unfoldable pub append : TransitionLog → TransitionRecord → TransitionLog × Option String
unfolding append_to
append l rec = append_to l l.faults rec
