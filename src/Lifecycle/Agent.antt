-- ===== src/Lifecycle/Agent.antt =====
-- internal/lifecycle/agent.go: a tick of a kind's ticker picks a subject and fires the kind on it; a
-- timer of the resume scheduler fires the deferred resume. Each action runs to its end before the next.
use aforo_nextgen_loadgen.Base.{String, Option, none, some, List, [], ◌∷◌, find, if◌then◌else◌}
use aforo_nextgen_loadgen.Lifecycle.StateMachine.{
  TransitionKind, upgrade, downgrade, pause, resume, trial_conversion, trial_cancel, migrate,
  retry_payment, dunning_step, dunning_escalate, unknown,
}
use aforo_nextgen_loadgen.Lifecycle.Picker.{Subject, pick_for}
use aforo_nextgen_loadgen.Lifecycle.ResumeScheduler
use aforo_nextgen_loadgen.Lifecycle.ResumeScheduler.{Timer}
use aforo_nextgen_loadgen.Lifecycle.World.{Env, Reply, World, Outcome, done, failed, panicked}
use aforo_nextgen_loadgen.Lifecycle.Fire.{
  fire_upgrade, fire_downgrade, fire_pause, fire_resume, fire_trial_conversion, fire_trial_cancel,
  fire_migrate,
}
use aforo_nextgen_loadgen.Lifecycle.DunningWalker

pub data Action : Type 0 where
  ticks : TransitionKind → Reply → Action
  resumes : String → Reply → Action

module _ {S : Type 0} where
  -- The ticker's loop goes on whatever the fire function returns.
  abbrev pub settle : Outcome S → Option (World S)
  settle (done w) = some w
  settle (failed w e) = some w
  settle panicked = none

module _ {S : Type 0} (env : Env S) where
  -- The tickers of buildTickers. Kinds that have no ticker never tick.
  unfoldable pub fire_kind : TransitionKind → World S → Subject → Reply → Outcome S
  fire_kind upgrade w s reply = fire_upgrade env w s reply
  fire_kind downgrade w s reply = fire_downgrade env w s reply
  fire_kind pause w s reply = fire_pause env w s reply
  fire_kind trial_conversion w s reply = fire_trial_conversion env w s reply
  fire_kind trial_cancel w s reply = fire_trial_cancel env w s reply
  fire_kind migrate w s reply = fire_migrate env w s reply
  fire_kind retry_payment w s reply = DunningWalker.step env w s reply
  fire_kind resume w s reply = done w
  fire_kind dunning_step w s reply = done w
  fire_kind dunning_escalate w s reply = done w
  fire_kind (unknown k) w s reply = done w

  unfoldable pub tick : World S → TransitionKind → Reply → Option (World S)
  unfolding fire_kind
  tick w kind reply =
      let (s, picker) = pick_for env.intn w.picker kind in
      let w1 = record w { picker = picker } in
      elim s [ none ↦ some w1 | some s ↦ settle (fire_kind kind w1 s reply) ]

  -- The callback of an armed timer, from its start to its Done.
  unfoldable pub run_resume : World S → Subject → String → Reply → Option (World S)
  run_resume w s id reply =
      let w1 = record w { resumes = ResumeScheduler.fire w.resumes id } in
      elim (settle (fire_resume env w1 s reply)) [
        | none ↦ none
        | some w2 ↦ elim (ResumeScheduler.finish w2.resumes) [
          | none ↦ none
          | some r ↦ some (record w2 { resumes = r })
        ]
      ]

  unfoldable pub timer_due : World S → String → Reply → Option (World S)
  unfolding run_resume
  timer_due w id reply = elim (find id w.resumes.timers) [
    | none ↦ some w
    | some t ↦ if t.armed then run_resume w t.captured id reply else some w
  ]

  unfoldable pub act : World S → Action → Option (World S)
  unfolding tick timer_due
  act w (ticks kind reply) = tick w kind reply
  act w (resumes id reply) = timer_due w id reply

  -- Any interleaving of ticks and timers.
  unfoldable pub run : World S → List Action → Option (World S)
  unfolding act
  run w [] = some w
  run w (a ∷ rest) = elim (act w a) [ none ↦ none | some w' ↦ run w' rest ]
