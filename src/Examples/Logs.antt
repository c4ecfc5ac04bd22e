-- ===== src/Examples/Logs.antt =====
-- Check 10 on a short transition log.
use aforo_nextgen_loadgen.Base.{◌≡◌, refl, Bool, String, Option, List, none, some, [], ◌∷◌, is_key}
use aforo_nextgen_loadgen.Lifecycle.StateMachine.{pause, can_fire_from, is_legal_transition}
use aforo_nextgen_loadgen.Lifecycle.Wire.{Strings, scenario_state}
use aforo_nextgen_loadgen.Lifecycle.TransitionLog.{TransitionRecord, ok}
use aforo_nextgen_loadgen.Validate.StateMachineInvariants.{row_reason, audit_rows, no_audit}
use aforo_nextgen_loadgen.Validate.StateMachineInvariants.Probes.{IsBounded}
use aforo_nextgen_loadgen.Validate.StateMachineInvariants.Trace.{IsTrace}
use aforo_nextgen_loadgen.Validate.StateMachineInvariants.Asked.{IsComplete, probes-IsTrace}

abbrev plain : Strings
plain = record {
  to_upper = λ s. s;
  trim_space = λ s. s;
  replace_newlines = λ s. s;
  byte_len = λ s. 0;
  byte_prefix = λ s n. s;
  join = λ s t. s;
}

abbrev paused_row : TransitionRecord
paused_row = record {
  subscription_id = "s1";
  tenant_id = "acme";
  customer_id = "c1";
  archetype = "api";
  transition = pause;
  from_state = "ACTIVE";
  expected_post_state = "PAUSED";
  from_offering = "";
  to_offering = "";
  idempotency_key = "k";
  transition_status = ok;
  http_status = 200;
  error = "";
  dunning_attempt = 0;
}

-- The platform has no audit row for s2.
abbrev platform : String → String → Option Bool
platform tenant id = some (is_key id "s1")

pause_is_legal : row_reason plain paused_row ≡ none
unfolding row_reason scenario_state can_fire_from is_legal_transition
pause_is_legal = refl

abbrev two_rows : List TransitionRecord
two_rows = paused_row ∷ record paused_row { subscription_id = "s2" } ∷ []

probes-IsTrace_example :
    let a = audit_rows platform two_rows no_audit in
    IsBounded a
    × ((asked : List TransitionRecord) × IsTrace platform two_rows asked a)
    × IsComplete platform two_rows a
probes-IsTrace_example = probes-IsTrace platform two_rows
