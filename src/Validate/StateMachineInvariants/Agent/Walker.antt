-- ===== src/Validate/StateMachineInvariants/Agent/Walker.antt =====
-- The dunning walker and the ticker's dispatch (internal/lifecycle/dunning_walker.go, agent.go) keep a
-- clean world clean.
use aforo_nextgen_loadgen.Base.{true, ◌≡◌, refl, inl, inr, ltb, suc, Bool-cases}
use aforo_nextgen_loadgen.Lifecycle.State.{SubscriptionState, suspended, wire}
use aforo_nextgen_loadgen.Lifecycle.StateMachine.{
  TransitionKind, upgrade, downgrade, pause, resume, trial_conversion, trial_cancel, migrate,
  retry_payment, dunning_step, dunning_escalate, unknown, can_fire_from, expected_post_state,
}
use aforo_nextgen_loadgen.Lifecycle.Wire.{KeepsNames}
use aforo_nextgen_loadgen.Lifecycle.Picker.{Subject}
use aforo_nextgen_loadgen.Lifecycle.TransitionLog.{TransitionRecord}
use aforo_nextgen_loadgen.Lifecycle.World.{Env, Reply, World, Outcome, done, failed, panicked}
use aforo_nextgen_loadgen.Lifecycle.DunningWalker.{after_retry, escalate, step, counter}
use aforo_nextgen_loadgen.Lifecycle.Agent.{fire_kind}
use aforo_nextgen_loadgen.Validate.StateMachineInvariants.Agent.Frame.{
  CleanWorld, Ensures, IsClean, append_or_fail-Ensures, append_last-Ensures, with_picker-Clean,
  refuse-Ensures, plain_row-IsClean, landed_row-IsClean,
}
use aforo_nextgen_loadgen.Validate.StateMachineInvariants.Agent.Fires.{
  fire_upgrade-Ensures, fire_downgrade-Ensures, fire_pause-Ensures, fire_trial_conversion-Ensures,
  fire_trial_cancel-Ensures, fire_migrate-Ensures, fire_retry_payment-Ensures,
}

-- A payment retry may be fired exactly where the two dunning rows may.
dunning_fires :
    (from : SubscriptionState)
    → can_fire_from retry_payment from ≡ true
    → (can_fire_from dunning_step from ≡ true) × (can_fire_from dunning_escalate from ≡ true)
unfolding can_fire_from
dunning_fires from h = (h, h)

module _ {S : Type 0} (env : Env S) (keeps : KeepsNames env.strings) where
  after_retry-Ensures :
      (rec : TransitionRecord) (o : Outcome S)
      → ((r : TransitionRecord)
          → r.transition ≡ rec.transition
          → r.from_state ≡ rec.from_state
          → r.expected_post_state ≡ rec.expected_post_state
          → IsClean env r)
      → Ensures env o
      → Ensures env (after_retry env rec o)
  unfolding after_retry
  after_retry-Ensures rec (done w) p c = append_last-Ensures env w _ c (p _ refl refl refl)
  after_retry-Ensures rec (failed w e) p c = refuse-Ensures env w rec e c p
  after_retry-Ensures rec panicked p c = absurd c

  escalate-Ensures :
      (w : World S) (s : Subject) (rec : TransitionRecord)
      → can_fire_from dunning_escalate s.state ≡ true
      → rec.transition ≡ dunning_escalate
      → rec.from_state ≡ wire s.state
      → CleanWorld env w
      → Ensures env (escalate w s rec)
  unfolding escalate expected_post_state
  escalate-Ensures w s rec fires same sent c =
      append_or_fail-Ensures env w _ _ _ c
        (landed_row-IsClean env keeps s.state dunning_escalate fires suspended tt refl _ same sent
          refl)
        (λ w1 c1. with_picker-Clean env w1 _ c1)

  step-Ensures :
      (w : World S) (s : Subject) (reply : Reply)
      → can_fire_from retry_payment s.state ≡ true
      → CleanWorld env w
      → Ensures env (step env w s reply)
  unfolding step
  step-Ensures w s reply fires c =
      elim (Bool-cases (ltb w.max_retries (suc (counter w s.subscription_id)))) [
        | inl late ↦
            rw (late, step)
              (escalate-Ensures _ s _ (dunning_fires s.state fires).1 refl refl
                (record { rows = c.rows; resumes = c.resumes }))
        | inr early ↦
            rw (early, step)
              (append_or_fail-Ensures env _ _ _ _ (record { rows = c.rows; resumes = c.resumes })
                (stepped _ refl refl refl)
                (λ w1 c1.
                  after_retry-Ensures _ _ stepped
                    (fire_retry_payment-Ensures env keeps w1 s reply fires c1)))
      ]
    where
      stepped :
          (r : TransitionRecord)
          → r.transition ≡ dunning_step
          → r.from_state ≡ wire s.state
          → r.expected_post_state ≡ ""
          → IsClean env r
      stepped = plain_row-IsClean env keeps s.state dunning_step (dunning_fires s.state fires).0

  pub fire_kind-Ensures :
      (kind : TransitionKind) (w : World S) (s : Subject) (reply : Reply)
      → can_fire_from kind s.state ≡ true
      → CleanWorld env w
      → Ensures env (fire_kind env kind w s reply)
  unfolding fire_kind
  fire_kind-Ensures upgrade w s reply fires c = fire_upgrade-Ensures env keeps w s reply fires c
  fire_kind-Ensures downgrade w s reply fires c = fire_downgrade-Ensures env keeps w s reply fires c
  fire_kind-Ensures pause w s reply fires c = fire_pause-Ensures env keeps w s reply fires c
  fire_kind-Ensures trial_conversion w s reply fires c =
      fire_trial_conversion-Ensures env keeps w s reply fires c
  fire_kind-Ensures trial_cancel w s reply fires c =
      fire_trial_cancel-Ensures env keeps w s reply fires c
  fire_kind-Ensures migrate w s reply fires c = fire_migrate-Ensures env keeps w s reply fires c
  fire_kind-Ensures retry_payment w s reply fires c = step-Ensures w s reply fires c
  fire_kind-Ensures resume w s reply fires c = c
  fire_kind-Ensures dunning_step w s reply fires c = c
  fire_kind-Ensures dunning_escalate w s reply fires c = c
  fire_kind-Ensures (unknown k) w s reply fires c = c
