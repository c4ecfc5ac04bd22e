-- ===== src/Lifecycle/ResumeScheduler.antt =====
-- ResumeScheduler of internal/lifecycle/pause_resume.go: deferred resumes, one timer to a
-- subscription, and the sync.WaitGroup that Cancel waits on. A timer is armed until it fires or is
-- stopped; `A` is what its callback captures. Done on a counter of zero panics, which is `none`.
use aforo_nextgen_loadgen.Base.{
  ℕ, zero, suc, Bool, true, false, String, Option, none, some, List, [], ◌∷◌, length, find, put,
  if◌then◌else◌, ◌==◌,
}
pub mod Counter
pub mod Drain

pub record Timer (A : Type 0) : Type 0 where
  pub armed : Bool
  pub captured : A

-- `in_flight` counts the callbacks that have started and not called Done.
pub record ResumeScheduler (A : Type 0) : Type 0 where
  pub timers : List (String × Timer A)
  pub waiting : ℕ
  pub in_flight : ℕ

module _ {A : Type 0} where
  unfoldable pub new_scheduler : ResumeScheduler A
  new_scheduler = record { timers = []; waiting = 0; in_flight = 0 }

  -- timer.Stop() and, where it stopped the timer, wg.Done().
  unfoldable pub stop : Option (Timer A) → ℕ → Option ℕ
  stop none waiting = some waiting
  stop (some t) zero = if t.armed then none else some zero
  stop (some t) (suc n) = if t.armed then some n else some (suc n)

  unfoldable pub schedule : ResumeScheduler A → String → A → Option (ResumeScheduler A)
  unfolding stop
  schedule r id a = elim (stop (find id r.timers) r.waiting) [
    | none ↦ none
    | some n ↦ some (record r {
      timers = put id (record { armed = true; captured = a }) r.timers;
      waiting = suc n;
    })
  ]

  unfoldable pub stop_all : List (String × Timer A) → ℕ → Option ℕ
  unfolding stop
  stop_all [] waiting = some waiting
  stop_all ((id, t) ∷ rest) waiting = elim (stop (some t) waiting) [
    | none ↦ none
    | some n ↦ stop_all rest n
  ]

  -- Cancel up to wg.Wait(), whose return is `wait_returns`: between the two, callbacks end, and a caller can
  -- schedule again.
  unfoldable pub cancel : ResumeScheduler A → Option (ResumeScheduler A)
  unfolding stop_all
  cancel r = elim (stop_all r.timers r.waiting) [
    | none ↦ none
    | some n ↦ some (record r { timers = []; waiting = n })
  ]

  -- wg.Wait() at the end of Cancel returns when the counter is zero.
  unfoldable pub wait_returns : ResumeScheduler A → Bool
  wait_returns r = r.waiting == 0

  unfoldable pub pending_count : ResumeScheduler A → ℕ
  pending_count r = length r.timers

  -- The runtime starts the callback of an armed timer; the map keeps the timer.
  unfoldable pub fire : ResumeScheduler A → String → ResumeScheduler A
  fire r id = elim (find id r.timers) [
    | none ↦ r
    | some t ↦
        if t.armed
        then record r {
          timers = put id (record t { armed = false }) r.timers;
          in_flight = suc r.in_flight;
        }
        else r
  ]

  -- A callback ends: its deferred wg.Done() runs.
  unfoldable pub finish : ResumeScheduler A → Option (ResumeScheduler A)
  finish r = elim r.in_flight [
    | zero ↦ some r
    | suc k ↦ elim r.waiting [
      | zero ↦ none
      | suc n ↦ some (record r { waiting = n; in_flight = k })
    ]
  ]

pub data Event (A : Type 0) : Type 0 where
  schedules : String → A → Event A
  fires : String → Event A
  finishes : Event A
  cancels : Event A

module _ {A : Type 0} where
  unfoldable pub step : ResumeScheduler A → Event A → Option (ResumeScheduler A)
  unfolding schedule fire finish cancel
  step r (schedules id a) = schedule r id a
  step r (fires id) = some (fire r id)
  step r finishes = finish r
  step r cancels = cancel r

  -- Any interleaving of the callers and the timers; `none` is a panic on the way.
  unfoldable pub run : ResumeScheduler A → List (Event A) → Option (ResumeScheduler A)
  unfolding step
  run r [] = some r
  run r (e ∷ es) = elim (step r e) [ none ↦ none | some r' ↦ run r' es ]
