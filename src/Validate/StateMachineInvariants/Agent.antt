-- ===== src/Validate/StateMachineInvariants/Agent.antt =====
-- The log that the lifecycle agent writes (internal/lifecycle/agent.go), put before Check 10
-- (internal/validate/state_machine_invariants.go).
mod Frame
mod Fires
mod Walker
use aforo_nextgen_loadgen.Base.{
  ℕ, suc, Bool, true, false, ◌≡◌, refl, inl, inr, ◌⊎◌, String, Option, none, some, List, [], ◌∷◌,
  All, find, if◌then◌else◌, Bool-cases, Option-cases,
}
use aforo_nextgen_loadgen.Lifecycle.StateMachine.{TransitionKind, retry_payment}
use aforo_nextgen_loadgen.Lifecycle.Wire.{Strings, KeepsNames}
use aforo_nextgen_loadgen.Lifecycle.Picker.{Subject, pick_for}
use aforo_nextgen_loadgen.Lifecycle.Picker.Eligible.{pick_for-IsEligible}
use aforo_nextgen_loadgen.Lifecycle.TransitionLog.{TransitionRecord}
use aforo_nextgen_loadgen.Lifecycle.ResumeScheduler
use aforo_nextgen_loadgen.Lifecycle.ResumeScheduler.{new_scheduler}
use aforo_nextgen_loadgen.Lifecycle.ResumeScheduler.Counter.{
  Balanced, fire-Balanced, finish-Balanced,
}
use aforo_nextgen_loadgen.Lifecycle.World.{Env, Reply, World, Outcome, done, failed, panicked}
use aforo_nextgen_loadgen.Lifecycle.Fire.{fire_resume}
use aforo_nextgen_loadgen.Lifecycle.Agent.{
  Action, ticks, resumes, settle, fire_kind, tick, run_resume, timer_due, act, run,
}
use aforo_nextgen_loadgen.Validate.StateMachineInvariants.{
  Violation, Reason, forbidden_step, row_reason, row_violations,
}
use aforo_nextgen_loadgen.Validate.StateMachineInvariants.Rows.{Blameless}
use Frame.{CleanWorld, Ensures, repick}
use Fires.{fire_resume-Ensures}
use Walker.{fire_kind-Ensures}

-- The platform reported, after a payment retry, a state that does not follow from the one before.
abbrev pub IsPlatformFault : Violation → Type 0
IsPlatformFault v = (v.transition ≡ retry_payment) × (v.reason ≡ forbidden_step)

blamed_violations :
    (lib : Strings) (i : ℕ) (rows : List TransitionRecord)
    → All (Blameless lib) rows
    → All IsPlatformFault (row_violations lib i rows)
unfolding row_violations
blamed_violations lib i [] h = tt
blamed_violations lib i (t ∷ rest) h = elim h.0 [
  | inl clean ↦ rw (clean, row_violations) (blamed_violations lib (suc i) rest h.1)
  | inr (retry, step) ↦
      rw (step, row_violations) ((retry, refl), blamed_violations lib (suc i) rest h.1)
]

module _ {S : Type 0} (env : Env S) (keeps : KeepsNames env.strings) where
  -- The agent goes on, in a clean world.
  abbrev GoesOn : Option (World S) → Type 0
  GoesOn o = (w : World S) × (o ≡ some w) × CleanWorld env w

  settle-GoesOn : (o : Outcome S) → Ensures env o → GoesOn (settle o)
  settle-GoesOn (done w) c = (w, refl, c)
  settle-GoesOn (failed w e) c = (w, refl, c)
  settle-GoesOn panicked c = absurd c

  tick-GoesOn :
      (w : World S) (kind : TransitionKind) (reply : Reply)
      → CleanWorld env w
      → GoesOn (tick env w kind reply)
  unfolding tick
  tick-GoesOn w kind reply c =
      let c1 = repick env w (pick_for env.intn w.picker kind).1 c in
      elim (Option-cases (pick_for env.intn w.picker kind).0) [
        | inl nobody ↦ rw (nobody, tick) (_, refl, c1)
        | inr (s, picked) ↦
            rw (picked, tick)
              (settle-GoesOn _ (
                fire_kind-Ensures env keeps kind _ s reply
                  (pick_for-IsEligible env.intn w.picker kind picked).fires c1))
      ]

  run_resume-GoesOn :
      (w : World S) (s : Subject) (id : String) (reply : Reply)
      → CleanWorld env w
      → GoesOn (run_resume env w s id reply)
  unfolding run_resume
  run_resume-GoesOn w s id reply c =
      let w1 : World S = record w { resumes = ResumeScheduler.fire w.resumes id } in
      let c1 : CleanWorld env w1 = record {
        rows = c.rows;
        resumes = fire-Balanced w.resumes id c.resumes;
      } in
      let (w2, settled, c2) =
        settle-GoesOn (fire_resume env w1 s reply) (fire_resume-Ensures env keeps w1 s reply c1) in
      let (r, finished, balanced) = finish-Balanced w2.resumes c2.resumes in
      (
        record w2 { resumes = r },
        rw (settled, run_resume) (rw finished),
        record { rows = c2.rows; resumes = balanced },
      )

  timer_due-GoesOn :
      (w : World S) (id : String) (reply : Reply)
      → CleanWorld env w
      → GoesOn (timer_due env w id reply)
  unfolding timer_due
  timer_due-GoesOn w id reply c = elim (Option-cases (find id w.resumes.timers)) [
    | inl missing ↦ rw (missing, timer_due) (w, refl, c)
    | inr (t, found) ↦ elim (Bool-cases t.armed) [
      | inl armed ↦ rw (found, timer_due) (rw armed (run_resume-GoesOn w t.captured id reply c))
      | inr idle ↦ rw (found, timer_due) (rw idle (w, refl, c))
    ]
  ]

  act-GoesOn : (w : World S) (a : Action) → CleanWorld env w → GoesOn (act env w a)
  unfolding act
  act-GoesOn w (ticks kind reply) c = tick-GoesOn w kind reply c
  act-GoesOn w (resumes id reply) c = timer_due-GoesOn w id reply c

  run-GoesOn : (w : World S) (actions : List Action) → CleanWorld env w → GoesOn (run env w actions)
  unfolding run
  run-GoesOn w [] c = (w, refl, c)
  run-GoesOn w (a ∷ rest) c =
      let (w1, acted, c1) = act-GoesOn w a c in
      let (w2, ran, c2) = run-GoesOn w1 rest c1 in (w2, rw (acted, run) ran, c2)

  -- From an empty log and a new scheduler, with text functions that keep the names of the states, for
  -- every sequence of ticks and timers, every answer of the platform and every
  -- failing write: the agent does not panic, and each violation that Check 10 finds in its log is a
  -- payment retry after which the platform reported a state that does not follow.
  pub agent_log_passes :
      (w : World S) (actions : List Action)
      → w.log.rows ≡ []
      → w.resumes ≡ new_scheduler
      → (w' : World S) × (run env w actions ≡ some w')
        × All IsPlatformFault (row_violations env.strings 0 w'.log.rows)
  unfolding new_scheduler
  agent_log_passes w actions empty fresh =
      let (w', ran, c) = run-GoesOn w actions start in
      (w', ran, blamed_violations env.strings 0 w'.log.rows c.rows)
    where
      start : CleanWorld env w
      start = record { rows = rw empty tt; resumes = rw fresh refl }
