-- ===== src/Payments/Dunning.antt =====
-- internal/payments/dunning.go: the driver that retries the payment of one past-due subscription until
-- it recovers or the attempts are used up, and then reads whether the platform has escalated. Clock
-- readings are left out.
use aforo_nextgen_loadgen.Base.{
  ◌⊎◌, inl, inr, ℕ, zero, suc, Bool, true, false, ◌||◌, String, Option, none, some, List, [], ◌∷◌,
  ◌++◌, map, put, is_key, ◌==◌, if◌then◌else◌,
}
use aforo_nextgen_loadgen.Lifecycle.StateMachine.{dunning_step, dunning_escalate}
use aforo_nextgen_loadgen.Lifecycle.TransitionLog.{
  TransitionRecord, TransitionStatus, TransitionLog, ok, fail, append,
}
pub mod Rows
pub mod Escalation
pub mod Unjudged

pub record DunningAttempt : Type 0 where
  pub number : ℕ
  pub http_status : ℕ
  pub outcome : String
  pub note : String

pub record DunningHistory : Type 0 where
  pub tenant_id : String
  pub subscription_id : String
  pub invoice_id : String
  pub attempts : List DunningAttempt
  pub final_state : String

-- `cycles` is by the subscription's id.
pub record DunningDriver : Type 0 where
  pub transitions : TransitionLog
  pub max_attempts : ℕ
  pub interval : ℕ
  pub idem_prefix : String
  pub cycles : List (String × DunningHistory)

-- The limits in the configuration; one that is negative counts as 0.
pub record DunningConfig : Type 0 where
  pub has_client : Bool
  pub transition_log : Option TransitionLog
  pub max_attempts : ℕ
  pub interval : ℕ
  pub idempotency_prefix : String

-- The texts that fmt.Sprintf builds.
pub record Texts : Type 0 where
  pub idem : String → String → ℕ → String
  pub sub_status : String → String
  pub transport_error : String → String
  pub retry_payment : ℕ → String → String
  pub post_max : String → Bool → String

-- What ends the wait before an attempt: the context with its error, or the interval; then the answer to
-- the POST, as the HTTP status, the error, and readString(resp, "status").
pub data Turn : Type 0 where
  cancelled : String → Turn
  answered : ℕ → Option String → String → Turn

-- Why the loop was left.
pub data LoopEnd : Type 0 where
  stopped : String → LoopEnd
  recovered exhausted : LoopEnd

pub record Walked : Type 0 where
  pub hist : DunningHistory
  pub log : TransitionLog
  pub end : LoopEnd

positive : ℕ → ℕ → ℕ
positive zero default = default
positive (suc n) default = suc n

-- The interval is in seconds.
unfoldable pub new_dunning_driver : DunningConfig → DunningDriver ⊎ String
unfolding positive
new_dunning_driver cfg = elim cfg.has_client [
  | false ↦ inr "payments: dunning driver requires lifecycle client"
  | true ↦ elim cfg.transition_log [
    | none ↦ inr "payments: dunning driver requires transition log"
    | some log ↦ inl (record {
      transitions = log;
      max_attempts = positive cfg.max_attempts 3;
      interval = positive cfg.interval 60;
      idem_prefix =
          if is_key cfg.idempotency_prefix ""
          then "aforo-loadgen-dunning"
          else cfg.idempotency_prefix;
      cycles = [];
    })
  ]
]

-- The record that appendTransition writes.
unfoldable pub step_record : String → String → ℕ → String → ℕ → String → String → TransitionRecord
step_record tenant sub n idem http_status outcome note = record {
  subscription_id = sub;
  tenant_id = tenant;
  customer_id = "";
  archetype = "";
  transition = dunning_step;
  from_state = "";
  expected_post_state = "";
  from_offering = "";
  to_offering = "";
  idempotency_key = idem;
  transition_status = if is_key outcome "platform_error" then fail else ok;
  http_status = http_status;
  error = note;
  dunning_attempt = n;
}

unfoldable pub terminal_status : Bool → Option String → TransitionStatus
terminal_status escalated_ok (some e) = fail
terminal_status escalated_ok none = if escalated_ok then ok else fail

unfoldable pub escalation_record : String → String → TransitionStatus → String → TransitionRecord
escalation_record tenant sub status note = record {
  subscription_id = sub;
  tenant_id = tenant;
  customer_id = "";
  archetype = "";
  transition = dunning_escalate;
  from_state = "";
  expected_post_state = "SUSPENDED";
  from_offering = "";
  to_offering = "";
  idempotency_key = "";
  transition_status = status;
  http_status = 0;
  error = note;
  dunning_attempt = 0;
}

-- An attempt that got no further, from the answer to its POST.
unfoldable pub failed_attempt : Texts → ℕ → ℕ → Option String → String → DunningAttempt
failed_attempt texts n status none sub_status = record {
  number = n;
  http_status = status;
  outcome = "still_failing";
  note = texts.sub_status sub_status;
}
failed_attempt texts n status (some e) sub_status =
    if status == 0
    then record {
      number = n;
      http_status = status;
      outcome = "platform_error";
      note = texts.transport_error e;
    }
    else record {
      number = n;
      http_status = status;
      outcome = "still_failing";
      note = texts.retry_payment status e;
    }

-- Whether the answer says that the subscription is active again.
unfoldable pub is_recovered : Option String → String → Bool
is_recovered none sub_status = is_key sub_status "ACTIVE"
is_recovered (some e) sub_status = false

unfoldable pub recovered_attempt : ℕ → ℕ → DunningAttempt
recovered_attempt n status = record {
  number = n;
  http_status = status;
  outcome = "succeeded";
  note = "sub recovered";
}

unfoldable pub with_attempt : DunningHistory → DunningAttempt → DunningHistory
with_attempt hist a = record hist { attempts = hist.attempts ++ a ∷ [] }

module _ (texts : Texts) (prefix : String) where
  -- The log's row of an attempt; a success is logged without its note.
  unfoldable pub append_step :
      DunningHistory → DunningAttempt → String → TransitionLog → TransitionLog
  unfolding step_record append
  append_step hist a note log =
      (append log (
        step_record hist.tenant_id hist.subscription_id a.number
          (texts.idem prefix hist.subscription_id a.number) a.http_status a.outcome note)).0

  -- The loop of Walk, from attempt `n` on with `left` attempts left.
  unfoldable pub walk_from : (ℕ → Turn) → ℕ → ℕ → DunningHistory → TransitionLog → Walked
  unfolding failed_attempt is_recovered recovered_attempt with_attempt append_step
  walk_from turn zero n hist log = record { hist = hist; log = log; end = exhausted }
  walk_from turn (suc left) n hist log = elim (turn n) [
    | cancelled e ↦ record { hist = hist; log = log; end = stopped e }
    | answered status err sub_status ↦ elim (is_recovered err sub_status) [
      | true ↦
          let a = recovered_attempt n status in
          record {
            hist = record (with_attempt hist a) { final_state = sub_status };
            log = append_step hist a "" log;
            end = recovered;
          }
      | false ↦
          let a = failed_attempt texts n status err sub_status in
          walk_from turn left (suc n) (with_attempt hist a) (append_step hist a a.note log)
    ]
  ]

-- observeTerminalState: the answer to the GET, as its error and readString(resp, "status").
unfoldable pub observe_terminal_state : Option String → String → String
observe_terminal_state none status = status
observe_terminal_state (some e) status = ""

unfoldable pub is_escalated : String → Bool
is_escalated final_state = is_key final_state "SUSPENDED" || is_key final_state "CANCELLED"

unfoldable pub escalate : Texts → Option String → String → Walked → Walked
unfolding observe_terminal_state is_escalated terminal_status escalation_record append
escalate texts err status w =
    let final_state = observe_terminal_state err status in
    let expected = is_escalated final_state in
    record w {
      hist = record w.hist { final_state = final_state };
      log =
          (append w.log (
            escalation_record w.hist.tenant_id w.hist.subscription_id (terminal_status expected err)
              (texts.post_max final_state expected))).0;
    }

unfoldable pub finish : Texts → Option String → String → Walked → LoopEnd → Walked × Option String
unfolding escalate
finish texts err status w (stopped e) = (w, some e)
finish texts err status w recovered = (w, none)
finish texts err status w exhausted = (escalate texts err status w, none)

unfoldable pub new_history : String → String → String → DunningHistory
new_history tenant sub invoice = record {
  tenant_id = tenant;
  subscription_id = sub;
  invoice_id = invoice;
  attempts = [];
  final_state = "";
}

-- Walk. The map holds a pointer to the history, so it shows the history as it is at the end.
unfoldable pub walk :
    Texts
    → (ℕ → Turn)
    → Option String
    → String
    → DunningDriver
    → String
    → String
    → String
    → DunningDriver × DunningHistory × Option String
unfolding walk_from finish new_history
walk texts turn get_err get_status d tenant sub invoice =
    let w =
      walk_from texts d.idem_prefix turn d.max_attempts 1 (new_history tenant sub invoice)
        d.transitions in
    let (done, e) = finish texts get_err get_status w w.end in
    (record d { transitions = done.log; cycles = put sub done.hist d.cycles }, done.hist, e)

unfoldable pub histories : DunningDriver → List DunningHistory
histories d = map (λ (e : String × DunningHistory). e.1) d.cycles
