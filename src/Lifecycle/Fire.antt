-- ===== src/Lifecycle/Fire.antt =====
-- The transition modules of internal/lifecycle: upgrade.go, downgrade.go, pause_resume.go,
-- trial_conversion.go, trial_cancel.go, migrate.go and retry_payment.go. Each writes one intent row,
-- makes one API call, writes one outcome row and updates the picker.
use aforo_nextgen_loadgen.Base.{◌&&◌, not, String, Option, none, some, is_key, if◌then◌else◌}
use aforo_nextgen_loadgen.Lifecycle.State.{active, paused, cancelled, wire}
use aforo_nextgen_loadgen.Lifecycle.StateMachine.{
  TransitionKind, upgrade, downgrade, pause, resume, trial_conversion, trial_cancel, migrate,
  retry_payment, expected_post_state,
}
use aforo_nextgen_loadgen.Lifecycle.Wire.{format_error}
use aforo_nextgen_loadgen.Lifecycle.Picker.{
  Subject, pick_migrate_target, set_live_state, mark_suspended, mark_live,
}
use aforo_nextgen_loadgen.Lifecycle.TransitionLog.{TransitionRecord, ok, fail}
use aforo_nextgen_loadgen.Lifecycle.ResumeScheduler.{schedule}
use aforo_nextgen_loadgen.Lifecycle.World.{
  Env, Reply, World, Outcome, done, failed, panicked, new_intent, wire_or_empty, append_or_fail,
  append_anyway, append_last, log_skip, with_picker, adopt_status, attempt, land,
}

module _ {S : Type 0} where
  -- deps.Resumes.Schedule, and the rest of the pause. The timer's callback captures the subject; when
  -- it fires is the environment's choice.
  unfoldable pub hold : World S → Subject → Outcome S
  hold w s =
      let id = s.subscription_id in
      let held = with_picker w (λ p. mark_suspended (set_live_state p id paused) id) in
      elim (schedule w.resumes id s) [
        | none ↦ panicked
        | some resumes ↦ done (record held { resumes = resumes })
      ]

module _ {S : Type 0} (env : Env S) where
  -- FireUpgrade and FireDowngrade after the choice of an offering; `intent` is the error's prefix.
  unfoldable pub change_offering :
      World S → Subject → TransitionKind → String → String → Reply → Outcome S
  unfolding new_intent
  change_offering w s kind intent target reply =
      let rec = record (new_intent s kind) {
        from_offering = s.current_offer;
        to_offering = target;
        idempotency_key = env.idempotency_key s kind;
      } in
      let called = record rec { http_status = reply.http_status } in
      attempt env w rec called (env.wrap intent) reply (λ w1.
        land w1 called (wire_or_empty (expected_post_state kind s.state))
          (λ w2. adopt_status env w2 s reply))

  unfoldable pub fire_upgrade : World S → Subject → Reply → Outcome S
  fire_upgrade w s reply =
      let (target, picker) = pick_migrate_target env.intn w.picker s in
      let w1 = record w { picker = picker } in
      elim target [
        | none ↦ log_skip w1 s upgrade "no alternate offering on tenant"
        | some t ↦ change_offering w1 s upgrade "log upgrade intent" t reply
      ]

  unfoldable pub fire_downgrade : World S → Subject → Reply → Outcome S
  fire_downgrade w s reply =
      let (target, picker) = pick_migrate_target env.intn w.picker s in
      let w1 = record w { picker = picker } in
      elim target [
        | none ↦ log_skip w1 s downgrade "no alternate offering on tenant"
        | some t ↦ change_offering w1 s downgrade "log downgrade intent" t reply
      ]

  -- The stable-id contract: a FAIL row of its own when the platform reports two different ids.
  unfoldable pub check_stable_id : World S → Subject → String → Reply → World S
  unfolding new_intent
  check_stable_id w s target reply =
      if not (is_key reply.source_id "")
        && not (is_key reply.target_id "")
        && not (is_key reply.source_id reply.target_id)
      then append_anyway w (record (new_intent s migrate) {
        from_offering = s.current_offer;
        to_offering = target;
        transition_status = fail;
        error = env.stable_id_violation reply.source_id reply.target_id;
      })
      else w

  unfoldable pub move_offering : World S → Subject → String → Reply → Outcome S
  unfolding new_intent
  move_offering w s target reply =
      let rec = record (new_intent s migrate) {
        from_offering = s.current_offer;
        to_offering = target;
        idempotency_key = env.idempotency_key s migrate;
      } in
      let called = record rec { http_status = reply.http_status } in
      attempt env w rec called (env.wrap "log migrate intent") reply (λ w1.
        land w1 called (wire_or_empty (expected_post_state migrate s.state))
          (λ w2. check_stable_id w2 s target reply))

  unfoldable pub fire_migrate : World S → Subject → Reply → Outcome S
  fire_migrate w s reply =
      let (target, picker) = pick_migrate_target env.intn w.picker s in
      let w1 = record w { picker = picker } in
      elim target [
        | none ↦ log_skip w1 s migrate "no alternate offering on tenant"
        | some t ↦ move_offering w1 s t reply
      ]

  unfoldable pub fire_trial_conversion : World S → Subject → Reply → Outcome S
  unfolding new_intent
  fire_trial_conversion w s reply =
      let rec = record (new_intent s trial_conversion) {
        idempotency_key = env.idempotency_key s trial_conversion;
      } in
      let called = record rec { http_status = reply.http_status } in
      attempt env w rec called (env.wrap "log trial-conversion intent") reply (λ w1.
        land w1 called (wire active)
          (λ w2. with_picker w2 (λ p. set_live_state p s.subscription_id active)))

  unfoldable pub fire_trial_cancel : World S → Subject → Reply → Outcome S
  unfolding new_intent
  fire_trial_cancel w s reply =
      let rec = record (new_intent s trial_cancel) {
        idempotency_key = env.idempotency_key s trial_cancel;
      } in
      let called = record rec { http_status = reply.http_status } in
      let id = s.subscription_id in
      attempt env w rec called (env.wrap "log trial-cancel intent") reply (λ w1.
        land w1 called (wire cancelled)
          (λ w2. with_picker w2 (λ p. mark_suspended (set_live_state p id cancelled) id)))

  unfoldable pub fire_pause : World S → Subject → Reply → Outcome S
  unfolding new_intent
  fire_pause w s reply =
      let rec = record (new_intent s pause) { idempotency_key = env.idempotency_key s pause } in
      let called = record rec { http_status = reply.http_status } in
      attempt env w rec called (env.wrap "log pause intent") reply (λ w1.
        append_or_fail w1
          (record called { transition_status = ok; expected_post_state = wire paused }) (λ m. m)
          (λ w2. hold w2 s))

  -- fireResume after its intent row: an error of the last row is dropped, and the hold is lifted.
  unfoldable pub lift : World S → Subject → TransitionRecord → Option String → Outcome S
  lift w s called (some e) =
      let rec = record called { transition_status = fail; error = format_error env.strings e } in
      failed (with_picker (append_anyway w rec) (λ p. mark_live p s.subscription_id)) e
  lift w s called none =
      let rec = record called { transition_status = ok; expected_post_state = wire active } in
      let id = s.subscription_id in
      done (with_picker (append_anyway w rec) (λ p. mark_live (set_live_state p id active) id))

  unfoldable pub fire_resume : World S → Subject → Reply → Outcome S
  unfolding new_intent
  fire_resume w s reply =
      let rec = record (new_intent s resume) {
        from_state = wire paused;
        idempotency_key = env.idempotency_key s resume;
      } in
      append_or_fail w rec (λ m. m)
        (λ w1. lift w1 s (record rec { http_status = reply.http_status }) reply.error)

  unfoldable pub fire_retry_payment : World S → Subject → Reply → Outcome S
  unfolding new_intent
  fire_retry_payment w s reply =
      let rec = record (new_intent s retry_payment) {
        idempotency_key = env.idempotency_key s retry_payment;
      } in
      let called = record rec {
        http_status = reply.http_status;
        dunning_attempt = reply.dunning_attempt;
      } in
      attempt env w rec called (env.wrap "log retry-payment intent") reply (λ w1.
        append_last (adopt_status env w1 s reply) (record called {
          transition_status = ok;
          expected_post_state = (if is_key reply.status "" then wire active else reply.status);
        }))
