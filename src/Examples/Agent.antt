-- ===== src/Examples/Agent.antt =====
-- The lifecycle agent on a manifest of one tenant with three subscriptions.

use aforo_nextgen_loadgen.Base.{
  ℕ, ◌<◌, ◌≡◌, refl, Bool, String, none, some, List, [], ◌∷◌, All, find, put, map, leb,
}
use aforo_nextgen_loadgen.Lifecycle.State.{active, past_due, expired, wire}
use aforo_nextgen_loadgen.Lifecycle.StateMachine.{
  upgrade, pause, retry_payment, can_fire_from, is_terminal,
}
use aforo_nextgen_loadgen.Lifecycle.Wire.{Strings, scenario_state, scenario_state-wire}
use aforo_nextgen_loadgen.Lifecycle.Picker.{
  Subject, Picker, ManifestTenant, new_picker, pick_for, eligible_count, live_state, is_suspended,
}
use aforo_nextgen_loadgen.Lifecycle.Picker.Eligible.{
  IsEligible, pick_for-IsEligible, pick_for-eligible_count,
}
use aforo_nextgen_loadgen.Lifecycle.TransitionLog.{TransitionRecord, new_log, fail}
use aforo_nextgen_loadgen.Lifecycle.TransitionLog.Rollup.{Agrees, append_all, rollup-Agrees}
use aforo_nextgen_loadgen.Lifecycle.ResumeScheduler.{
  ResumeScheduler, Event, schedules, fires, finishes, cancels, new_scheduler, cancel, pending_count,
  wait_returns,
}
use aforo_nextgen_loadgen.Lifecycle.ResumeScheduler.Counter.{Balanced, run-Balanced}
use aforo_nextgen_loadgen.Lifecycle.ResumeScheduler.Drain.{finish_count, cancel_drains}
use aforo_nextgen_loadgen.Lifecycle.ResumeScheduler
use aforo_nextgen_loadgen.Lifecycle.World.{new_intent, Env, Reply, World}
use aforo_nextgen_loadgen.Lifecycle.Agent.{Action, ticks, resumes, run}
use aforo_nextgen_loadgen.Validate.StateMachineInvariants.{row_violations}
use aforo_nextgen_loadgen.Validate.StateMachineInvariants.Agent.{IsPlatformFault, agent_log_passes}

-- Text functions that change nothing, which agree with Go's on upper-case words.
abbrev plain : Strings
plain = record {
  to_upper = λ s. s;
  trim_space = λ s. s;
  replace_newlines = λ s. s;
  byte_len = λ s. 0;
  byte_prefix = λ s n. s;
  join = λ s t. s;
}

-- A generator that always draws zero.
abbrev zero_draw : ℕ → ℕ → ℕ × ℕ
zero_draw r n = (0, r)

abbrev env : Env ℕ
env = record {
  intn = zero_draw;
  strings = plain;
  idempotency_key = λ s k. s.subscription_id;
  step_key = λ key n. key;
  wrap = λ prefix e. e;
  stable_id_violation = λ source target. "stable-id violation";
}

abbrev acme : ManifestTenant
acme = record {
  tenant_id = "acme";
  archetype = "api";
  pricing_model = "PER_UNIT";
  billing_mode = "POSTPAID";
  offerings = "gold" ∷ "" ∷ "silver" ∷ [];
  customers =
      record {
        customer_id = "c1";
        subscriptions =
            record { subscription_id = "s1"; seed_key = "k1"; status = active }
            ∷ record { subscription_id = "s2"; seed_key = "k2"; status = expired }
            ∷ record { subscription_id = "s3"; seed_key = "k3"; status = past_due }
            ∷ [];
      }
      ∷ [];
}

-- A sort that leaves its slice in order, as this one is.
abbrev kept : (Subject → Subject → Bool) → List Subject → List Subject
kept less xs = xs

abbrev picker : Picker ℕ
unfolding new_picker
picker = new_picker kept (acme ∷ []) 7

pool_size : map (λ (s : Subject). s.subscription_id) picker.subjects ≡ "s1" ∷ "s3" ∷ []
unfolding picker put is_terminal
pool_size = refl

one_pausable : eligible_count picker pause ≡ 1
unfolding eligible_count picker put find can_fire_from live_state is_suspended
one_pausable = refl

pick_for-eligible_count_example :
    (0 < eligible_count picker pause
      → (s : Subject) × ((pick_for zero_draw picker pause).0 ≡ some s))
    × (eligible_count picker pause ≡ 0 → (pick_for zero_draw picker pause).0 ≡ none)
pick_for-eligible_count_example = pick_for-eligible_count zero_draw picker pause (λ r n h. h)

abbrev first_pick : Subject
first_pick = record {
  tenant_id = "acme";
  archetype = "api";
  pricing_model = "PER_UNIT";
  billing_mode = "POSTPAID";
  customer_id = "c1";
  subscription_id = "s1";
  sub_seed_key = "k1";
  state = active;
  offering_ids = "gold" ∷ "silver" ∷ [];
  current_offer = "";
}

pick_for-IsEligible_example : IsEligible picker pause first_pick
unfolding pick_for picker put is_terminal find can_fire_from live_state is_suspended
pick_for-IsEligible_example = pick_for-IsEligible zero_draw picker pause refl

scenario_state-wire_example : scenario_state plain "PAST_DUE" ≡ past_due
unfolding wire
scenario_state-wire_example = scenario_state-wire plain past_due (λ s h. refl) tt

abbrev world : World ℕ
unfolding new_log new_scheduler
world = record {
  log = new_log [];
  picker = picker;
  resumes = new_scheduler;
  max_retries = 3;
  retries = [];
}

abbrev fine : Reply
fine = record {
  http_status = 200;
  error = none;
  status = "";
  dunning_attempt = 1;
  source_id = "";
  target_id = "";
}

abbrev two_days : List Action
two_days =
    ticks pause fine
    ∷ ticks upgrade fine
    ∷ resumes "s1" fine
    ∷ ticks retry_payment fine
    ∷ ticks upgrade (record fine { error = some "409 conflict" })
    ∷ []

agent_log_passes_example :
    (w' : World ℕ) × (run env world two_days ≡ some w')
    × All IsPlatformFault (row_violations plain 0 w'.log.rows)
unfolding world
agent_log_passes_example = agent_log_passes env (λ s h. refl) world two_days refl refl

abbrev overdue : Subject
overdue = record {
  tenant_id = "acme";
  archetype = "api";
  pricing_model = "PER_UNIT";
  billing_mode = "POSTPAID";
  customer_id = "c1";
  subscription_id = "s3";
  sub_seed_key = "k3";
  state = past_due;
  offering_ids = "gold" ∷ "silver" ∷ [];
  current_offer = "";
}

abbrev worn : World ℕ
worn = record world { retries = ("s3", 3) ∷ [] }

abbrev two_rows : List TransitionRecord
two_rows =
    let row = new_intent overdue retry_payment in
    row ∷ record row { transition_status = fail; error = "HTTP 500" } ∷ []

rollup-Agrees_example : Agrees (append_all (new_log (none ∷ some "disk full" ∷ [])) two_rows)
rollup-Agrees_example = rollup-Agrees (none ∷ some "disk full" ∷ []) two_rows

abbrev busy : List (Event String)
busy = schedules "s1" "a" ∷ schedules "s1" "b" ∷ fires "s1" ∷ finishes ∷ cancels ∷ []

run-Balanced_example :
    (r : ResumeScheduler String) × (ResumeScheduler.run new_scheduler busy ≡ some r) × Balanced r
run-Balanced_example = run-Balanced busy

-- One resume is running and another is armed when Cancel is called; then the first ends.
abbrev one_running : List (Event String)
one_running = schedules "s1" "a" ∷ fires "s1" ∷ schedules "s2" "b" ∷ []

abbrev ending : List (Event String)
ending = fires "s2" ∷ finishes ∷ []

cancel_drains_example :
    (r : ResumeScheduler String) × (r1 : ResumeScheduler String) × (r2 : ResumeScheduler String)
    × (ResumeScheduler.run new_scheduler one_running ≡ some r)
    × (cancel r ≡ some r1)
    × (ResumeScheduler.run r1 ending ≡ some r2)
    × (r2.timers ≡ [])
    × (wait_returns r2 ≡ leb r.in_flight (finish_count ending))
cancel_drains_example = cancel_drains one_running ending (refl, (refl, tt))
