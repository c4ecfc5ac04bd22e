-- ===== src/Lifecycle/ResumeScheduler/Drain.antt =====
-- When Cancel of the resume scheduler returns (internal/lifecycle/pause_resume.go).
use aforo_nextgen_loadgen.Base.{
  ℕ, zero, suc, ◌-◌, Bool, true, false, ◌≡◌, refl, ◌∙◌, ap, some, List, [], ◌∷◌, leb, All, arith,
  find,
}
use aforo_nextgen_loadgen.Lifecycle.ResumeScheduler.{
  ResumeScheduler, Event, schedules, fires, finishes, cancels, new_scheduler, cancel, fire, finish,
  step, run, stop_all, wait_returns,
}
use aforo_nextgen_loadgen.Lifecycle.ResumeScheduler.Counter.{run-Balanced, cancel_clears}

module _ {A : Type 0} where
  abbrev pub schedules_one : Event A → Bool
  schedules_one (schedules id a) = true
  schedules_one (fires id) = false
  schedules_one finishes = false
  schedules_one cancels = false

  -- The callbacks that end in a sequence of events.
  abbrev pub finish_count : List (Event A) → ℕ
  finish_count [] = 0
  finish_count (schedules id a ∷ es) = finish_count es
  finish_count (fires id ∷ es) = finish_count es
  finish_count (finishes ∷ es) = suc (finish_count es)
  finish_count (cancels ∷ es) = finish_count es

  -- The scheduler without timers, with this many callbacks running.
  abbrev running : ℕ → ResumeScheduler A
  running n = record { timers = []; waiting = n; in_flight = n }

  run-running :
      (n : ℕ) (es : List (Event A))
      → All (λ e. schedules_one e ≡ false) es
      → run (running n) es ≡ some (running (n - finish_count es))
  unfolding run step fire finish cancel stop_all find
  run-running n [] quiet = let e : n ≡ n - 0 = omega arith in ap (λ k. some (running k)) e
  run-running n (schedules id a ∷ es) quiet = absurd cc quiet.0
  run-running n (fires id ∷ es) quiet = run-running n es quiet.1
  run-running zero (finishes ∷ es) quiet =
      let e : 0 - finish_count es ≡ 0 - suc (finish_count es) = omega arith in
      run-running 0 es quiet.1 ∙ ap (λ k. some (running k)) e
  run-running (suc n) (finishes ∷ es) quiet =
      let e : n - finish_count es ≡ suc n - suc (finish_count es) = omega arith in
      run-running n es quiet.1 ∙ ap (λ k. some (running k)) e
  run-running n (cancels ∷ es) quiet = run-running n es quiet.1

  -- Cancel after any events, and then any events in which nothing is scheduled: nothing panics, no timer is
  -- left, and the wait of Cancel returns exactly when at least as many callbacks have ended since as were running when
  -- Cancel was called.
  pub cancel_drains :
      (past later : List (Event A))
      → All (λ e. schedules_one e ≡ false) later
      → (r : ResumeScheduler A) × (r1 : ResumeScheduler A) × (r2 : ResumeScheduler A) × (run
            new_scheduler past
          ≡ some r)
        × (cancel r ≡ some r1)
        × (run r1 later ≡ some r2)
        × (r2.timers ≡ [])
        × (wait_returns r2 ≡ leb r.in_flight (finish_count later))
  unfolding wait_returns
  cancel_drains past later quiet =
      let (r, ran, balanced) = run-Balanced past in
      (
        r,
        running r.in_flight,
        running (r.in_flight - finish_count later),
        ran,
        cancel_clears r balanced,
        run-running r.in_flight later quiet,
        refl,
        ground arith,
      )
