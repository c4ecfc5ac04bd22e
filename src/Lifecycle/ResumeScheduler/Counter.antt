-- ===== src/Lifecycle/ResumeScheduler/Counter.antt =====
-- The WaitGroup of the resume scheduler never panics and never leaks (internal/lifecycle/pause_resume.go).
use aforo_nextgen_loadgen.Base.{
  ℕ, zero, suc, ◌+◌, ◌-◌, ◌≤◌, true, false, ◌≡◌, refl, String, Option, none, some, List, [], ◌∷◌,
  inl, inr, arith, find, put, is_key, if◌then◌else◌, Bool-cases, Option-cases,
}
use aforo_nextgen_loadgen.Lifecycle.ResumeScheduler.{
  Timer, ResumeScheduler, Event, schedules, fires, finishes, cancels, new_scheduler, stop, stop_all,
  schedule, cancel, fire, finish, step, run,
}

module _ {A : Type 0} where
  abbrev pub armed_in : Option (Timer A) → ℕ
  armed_in none = 0
  armed_in (some t) = if t.armed then 1 else 0

  abbrev pub armed_count : List (String × Timer A) → ℕ
  armed_count [] = 0
  armed_count ((id, t) ∷ rest) = armed_in (some t) + armed_count rest

  -- The counter of the WaitGroup is the timers that can still fire and the callbacks still running.
  abbrev pub Balanced : ResumeScheduler A → Type 0
  Balanced r = r.waiting ≡ armed_count r.timers + r.in_flight

  armed_count-put :
      (id : String) (t : Timer A) (m : List (String × Timer A))
      → armed_count (put id t m) + armed_in (find id m) ≡ armed_count m + armed_in (some t)
  unfolding put find
  armed_count-put id t [] = omega arith
  armed_count-put id t ((j, u) ∷ m) = elim (Bool-cases (is_key j id)) [
    | inl here ↦ rw here (omega arith)
    | inr there ↦ rw there (omega (arith, armed_count-put id t m))
  ]

  armed_in-find-le :
      (id : String) (m : List (String × Timer A)) → armed_in (find id m) ≤ armed_count m
  unfolding find
  armed_in-find-le id [] = omega arith
  armed_in-find-le id ((j, u) ∷ m) = elim (Bool-cases (is_key j id)) [
    | inl here ↦ rw here (omega arith)
    | inr there ↦ rw there (omega (arith, armed_in-find-le id m))
  ]

  stop_total : (o : Option (Timer A)) (n : ℕ) → armed_in o ≤ n → stop o n ≡ some (n - armed_in o)
  unfolding stop
  stop_total none n h = ground arith
  stop_total (some t) zero h = ground arith
  stop_total (some t) (suc n) h = ground arith

  stop_all_total :
      (m : List (String × Timer A)) (n : ℕ)
      → armed_count m ≤ n
      → stop_all m n ≡ some (n - armed_count m)
  unfolding stop_all
  stop_all_total [] n h = ground arith
  stop_all_total ((id, t) ∷ m) n h =
      rw (stop_total (some t) n (omega arith), stop_all)
        (rw (stop_all_total m (n - armed_in (some t)) (omega arith)) (ground arith))

  -- A step from a balanced scheduler: it does not panic, and the scheduler is balanced again.
  abbrev pub Steps : Option (ResumeScheduler A) → Type 0
  Steps o = (r : ResumeScheduler A) × (o ≡ some r) × Balanced r

  pub schedule-Balanced :
      (r : ResumeScheduler A) (id : String) (a : A) → Balanced r → Steps (schedule r id a)
  unfolding schedule
  schedule-Balanced r id a b =
      let n = r.waiting - armed_in (find id r.timers) in
      let t : Timer A = record { armed = true; captured = a } in
      (
        record r { timers = put id t r.timers; waiting = suc n },
        rw (
          stop_total (find id r.timers) r.waiting (omega (arith, armed_in-find-le id r.timers)),
          schedule,
        ),
        omega (arith, armed_count-put id t r.timers, armed_in-find-le id r.timers),
      )

  pub fire-Balanced : (r : ResumeScheduler A) (id : String) → Balanced r → Balanced (fire r id)
  unfolding fire
  fire-Balanced r id b = elim (Option-cases (find id r.timers)) [
    | inl missing ↦ rw (missing, fire) b
    | inr (t, found) ↦ elim (Bool-cases t.armed) [
      | inl armed ↦
          rw (found, fire)
            (rw armed (
              ground
                (arith, found, armed, armed_count-put id (record t { armed = false }) r.timers)))
      | inr idle ↦ rw (found, fire) (rw idle b)
    ]
  ]

  finish_at :
      (r : ResumeScheduler A) (k n : ℕ)
      → r.in_flight ≡ k
      → r.waiting ≡ n
      → Balanced r
      → Steps (finish r)
  unfolding finish
  finish_at r zero n ek en b = (r, ground arith, b)
  finish_at r (suc k) zero ek en b = absurd (omega arith)
  finish_at r (suc k) (suc n) ek en b =
      (record r { waiting = n; in_flight = k }, ground arith, omega arith)

  pub finish-Balanced : (r : ResumeScheduler A) → Balanced r → Steps (finish r)
  finish-Balanced r b = finish_at r r.in_flight r.waiting refl refl b

  -- From a balanced scheduler Cancel does not panic, clears the map, and leaves the counter at the number of
  -- callbacks that are running.
  pub cancel_clears :
      (r : ResumeScheduler A)
      → Balanced r
      → cancel r ≡ some (record { timers = []; waiting = r.in_flight; in_flight = r.in_flight })
  unfolding cancel
  cancel_clears r b =
      rw (stop_all_total r.timers r.waiting (omega arith), cancel)
        (let e : r.waiting - armed_count r.timers ≡ r.in_flight = omega arith in rw e)

  step-Balanced : (r : ResumeScheduler A) (e : Event A) → Balanced r → Steps (step r e)
  unfolding step
  step-Balanced r (schedules id a) b = schedule-Balanced r id a b
  step-Balanced r (fires id) b = (fire r id, refl, fire-Balanced r id b)
  step-Balanced r finishes b = finish-Balanced r b
  step-Balanced r cancels b = (
    record { timers = []; waiting = r.in_flight; in_flight = r.in_flight },
    cancel_clears r b,
    omega arith,
  )

  events_keep : (r : ResumeScheduler A) (es : List (Event A)) → Balanced r → Steps (run r es)
  unfolding run
  events_keep r [] b = (r, refl, b)
  events_keep r (e ∷ es) b =
      let (r', stepped, b') = step-Balanced r e b in
      let (last, ran, done) = events_keep r' es b' in (last, rw (stepped, run) ran, done)

  -- Whatever the order in which resumes are scheduled, replaced, fire, end and are cancelled, no
  -- Done finds the counter at zero, and the counter stays equal to the armed timers plus the running
  -- callbacks.
  pub run-Balanced :
      (es : List (Event A)) → (r : ResumeScheduler A) × (run new_scheduler es ≡ some r) × Balanced r
  unfolding new_scheduler
  run-Balanced es = events_keep new_scheduler es (omega arith)
