-- ===== src/Lifecycle/DunningWalker.antt =====
-- internal/lifecycle/dunning_walker.go: the retry counter of each subscription, and the step that
-- retries a payment until the counter passes the limit and then records the escalation.
use aforo_nextgen_loadgen.Base.{
  ℕ, zero, suc, Bool, true, false, String, Option, none, some, List, find, put, remove, ltb,
  if◌then◌else◌,
}
use aforo_nextgen_loadgen.Lifecycle.State.{suspended, wire}
use aforo_nextgen_loadgen.Lifecycle.StateMachine.{dunning_step, dunning_escalate}
use aforo_nextgen_loadgen.Lifecycle.Picker.{Subject, set_live_state, mark_suspended}
use aforo_nextgen_loadgen.Lifecycle.TransitionLog.{TransitionRecord, ok}
use aforo_nextgen_loadgen.Lifecycle.World.{
  Env, Reply, World, Outcome, done, failed, panicked, new_intent, append_or_fail, append_last,
  refuse, with_picker,
}
use aforo_nextgen_loadgen.Lifecycle.Fire.{fire_retry_payment}
pub mod Escalation

-- NewDunningWalker's default for a limit that is not set.
unfoldable pub walker_limit : ℕ → ℕ
walker_limit zero = 3
walker_limit (suc n) = suc n

module _ {S : Type 0} where
  -- Counter: a missing key reads as zero.
  unfoldable pub counter : World S → String → ℕ
  counter w id = elim (find id w.retries) [ none ↦ 0 | some n ↦ n ]

  unfoldable pub reset : World S → String → World S
  reset w id = record w { retries = remove id w.retries }

  unfoldable pub escalate : World S → Subject → TransitionRecord → Outcome S
  escalate w s rec =
      append_or_fail w (record rec { expected_post_state = wire suspended; transition_status = ok })
        (λ m. m)
        (λ w1. done (
          with_picker w1
            (λ p. mark_suspended (set_live_state p s.subscription_id suspended) s.subscription_id)))

module _ {S : Type 0} (env : Env S) where
  unfoldable pub after_retry : TransitionRecord → Outcome S → Outcome S
  after_retry rec (done w) = append_last w (record rec { transition_status = ok })
  after_retry rec (failed w e) = refuse env w rec e
  after_retry rec panicked = panicked

  unfoldable pub step : World S → Subject → Reply → Outcome S
  unfolding counter new_intent
  step w s reply =
      let current = suc (counter w s.subscription_id) in
      let w1 = record w { retries = put s.subscription_id current w.retries } in
      let kind = if ltb w.max_retries current then dunning_escalate else dunning_step in
      let rec = record (new_intent s kind) {
        dunning_attempt = current;
        idempotency_key = env.step_key (env.idempotency_key s dunning_step) current;
      } in
      if ltb w.max_retries current
      then escalate w1 s rec
      else append_or_fail w1 rec (λ m. m)
          (λ w2. after_retry rec (fire_retry_payment env w2 s reply))
