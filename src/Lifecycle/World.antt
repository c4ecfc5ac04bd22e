-- ===== src/Lifecycle/World.antt =====
-- What every transition module of internal/lifecycle works on (helpers.go: Deps, newIntent, logSkip), and
-- the steps that they share. The platform's answer to an API call is the argument `reply`.
use aforo_nextgen_loadgen.Base.{ℕ, String, Option, none, some, List, is_key, if◌then◌else◌}
use aforo_nextgen_loadgen.Lifecycle.State.{SubscriptionState, wire}
use aforo_nextgen_loadgen.Lifecycle.StateMachine.{TransitionKind}
use aforo_nextgen_loadgen.Lifecycle.Wire.{Strings, from_platform_status, format_error}
use aforo_nextgen_loadgen.Lifecycle.Picker.{Subject, Picker, set_live_state}
use aforo_nextgen_loadgen.Lifecycle.TransitionLog.{
  TransitionRecord, TransitionLog, pending, ok, fail, skipped, append,
}
use aforo_nextgen_loadgen.Lifecycle.ResumeScheduler.{ResumeScheduler}

-- What the code takes from Go's libraries: text functions, the SHA-256 key of a transition on the
-- current day, and the formatting of numbers and wrapped errors.
pub record Env (S : Type 0) : Type 0 where
  pub intn : S → ℕ → ℕ × S
  pub strings : Strings
  pub idempotency_key : Subject → TransitionKind → String
  pub step_key : String → ℕ → String
  pub wrap : String → String → String
  pub stable_id_violation : String → String → String

-- The answer to PostJSON: the HTTP status, the error if there is one, and the decoded fields, which
-- are empty where the body lacks them.
pub record Reply : Type 0 where
  pub http_status : ℕ
  pub error : Option String
  pub status : String
  pub dunning_attempt : ℕ
  pub source_id : String
  pub target_id : String

-- Deps, with the walker's counters and limit.
pub record World (S : Type 0) : Type 0 where
  pub log : TransitionLog
  pub picker : Picker S
  pub resumes : ResumeScheduler Subject
  pub max_retries : ℕ
  pub retries : List (String × ℕ)

-- `nil`, an error that is returned, or a panic.
pub data Outcome (S : Type 0) : Type 0 where
  done : World S → Outcome S
  failed : World S → String → Outcome S
  panicked : Outcome S

unfoldable pub new_intent : Subject → TransitionKind → TransitionRecord
unfolding wire
new_intent s kind = record {
  subscription_id = s.subscription_id;
  tenant_id = s.tenant_id;
  customer_id = s.customer_id;
  archetype = s.archetype;
  transition = kind;
  from_state = wire s.state;
  expected_post_state = "";
  from_offering = "";
  to_offering = "";
  idempotency_key = "";
  transition_status = pending;
  http_status = 0;
  error = "";
  dunning_attempt = 0;
}

-- `string(...)` of a state that may be the empty string.
unfoldable pub wire_or_empty : Option SubscriptionState → String
unfolding wire
wire_or_empty none = ""
wire_or_empty (some s) = wire s

module _ {S : Type 0} where
  -- if err := deps.Log.Append(rec); err != nil { return wrapped(err) }
  unfoldable pub append_or_fail :
      World S → TransitionRecord → (String → String) → (World S → Outcome S) → Outcome S
  append_or_fail w rec wrapped next =
      let (log, e) = append w.log rec in
      elim e [
        | none ↦ next (record w { log = log })
        | some m ↦ failed (record w { log = log }) (wrapped m)
      ]

  -- _ = deps.Log.Append(rec)
  unfoldable pub append_anyway : World S → TransitionRecord → World S
  append_anyway w rec = record w { log = (append w.log rec).0 }

  -- return deps.Log.Append(rec)
  unfoldable pub append_last : World S → TransitionRecord → Outcome S
  append_last w rec = append_or_fail w rec (λ m. m) done

  unfoldable pub with_picker : World S → (Picker S → Picker S) → World S
  with_picker w f = record w { picker = f w.picker }

  unfoldable pub log_skip : World S → Subject → TransitionKind → String → Outcome S
  unfolding new_intent
  log_skip w s kind reason =
      append_last w (record (new_intent s kind) { transition_status = skipped; error = reason })

  -- The OK row, with the state that the platform should be in; then the rest.
  unfoldable pub land : World S → TransitionRecord → String → (World S → World S) → Outcome S
  land w called expected update =
      append_or_fail w (record called { transition_status = ok; expected_post_state = expected })
        (λ m. m) (λ w1. done (update w1))

module _ {S : Type 0} (env : Env S) where
  -- The common end of a refused call: a FAIL row, and the error.
  unfoldable pub refuse : World S → TransitionRecord → String → Outcome S
  refuse w rec e =
      failed
        (append_anyway w
          (record rec { transition_status = fail; error = format_error env.strings e }))
        e

  -- How every transition begins: the intent row, the call, and the end of a refused call. `called` is
  -- the row with the answer's status.
  unfoldable pub attempt :
      World S
      → TransitionRecord
      → TransitionRecord
      → (String → String)
      → Reply
      → (World S → Outcome S)
      → Outcome S
  attempt w rec called wrapped reply succeed =
      append_or_fail w rec wrapped
        λ w1. elim reply.error [ some e ↦ refuse w1 called e | none ↦ succeed w1 ]

  -- if resp.Status != "" { deps.Picker.SetLiveState(...) }
  unfoldable pub adopt_status : World S → Subject → Reply → World S
  adopt_status w s reply =
      if is_key reply.status ""
      then w
      else with_picker w
          (λ p. set_live_state p s.subscription_id (from_platform_status env.strings reply.status))
