-- ===== src/Lifecycle/DunningWalker/Escalation.antt =====
-- How the retry counter moves and what it leads to (internal/lifecycle/dunning_walker.go).
use aforo_nextgen_loadgen.Base.{
  ℕ, suc, ltb, ◌≡◌, refl, inl, inr, String, none, some, List, put, find-put, is_key_refl,
  Bool-cases, Option-cases, arith,
}
use aforo_nextgen_loadgen.Lifecycle.State.{suspended}
use aforo_nextgen_loadgen.Lifecycle.StateMachine.{dunning_step, dunning_escalate}
use aforo_nextgen_loadgen.Lifecycle.Picker.{Subject, Picker, set_live_state, mark_suspended}
use aforo_nextgen_loadgen.Lifecycle.TransitionLog.{
  TransitionRecord, TransitionLog, ok, append, wrote,
}
use aforo_nextgen_loadgen.Lifecycle.World.{
  Env, Reply, World, Outcome, done, failed, panicked, append_or_fail, append_anyway, append_last,
  refuse, with_picker, adopt_status, attempt, new_intent,
}
use aforo_nextgen_loadgen.Lifecycle.Fire.{fire_retry_payment}
use aforo_nextgen_loadgen.Lifecycle.DunningWalker.{counter, after_retry, escalate, step}

module _ {S : Type 0} where
  -- The counters that a call leaves; a panic leaves none.
  abbrev pub LeavesCounters : List (String × ℕ) → Outcome S → Type 0
  LeavesCounters n (done w) = w.retries ≡ n
  LeavesCounters n (failed w e) = w.retries ≡ n
  LeavesCounters n panicked = ⊥

  append_or_fail-counters :
      (w : World S) (r : TransitionRecord) (wrapped : String → String) (next : World S → Outcome S)
      (n : List (String × ℕ))
      → w.retries ≡ n
      → ((w1 : World S) → w1.retries ≡ n → LeavesCounters n (next w1))
      → LeavesCounters n (append_or_fail w r wrapped next)
  unfolding append_or_fail
  append_or_fail-counters w r wrapped next n e k = elim (Option-cases (append w.log r).1) [
    | inl wrote ↦ rw (wrote, append_or_fail) (k _ e)
    | inr (m, refused) ↦ rw (refused, append_or_fail) e
  ]

  append_last-counters :
      (w : World S) (r : TransitionRecord) (n : List (String × ℕ))
      → w.retries ≡ n
      → LeavesCounters n (append_last w r)
  unfolding append_last
  append_last-counters w r n e = append_or_fail-counters w r (λ m. m) done n e (λ w1 e1. e1)

module _ {S : Type 0} where
  -- The counter of this subscription in the world that a call leaves.
  abbrev pub CountsTo : String → ℕ → Outcome S → Type 0
  CountsTo id n (done w) = counter w id ≡ n
  CountsTo id n (failed w e) = counter w id ≡ n
  CountsTo id n panicked = ⊥

module _ {S : Type 0} (env : Env S) where
  refuse-counters :
      (w : World S) (r : TransitionRecord) (m : String) (n : List (String × ℕ))
      → w.retries ≡ n
      → LeavesCounters n (refuse env w r m)
  unfolding refuse append_anyway
  refuse-counters w r m n e = e

  adopt_status-counters :
      (w : World S) (s : Subject) (reply : Reply) (n : List (String × ℕ))
      → w.retries ≡ n
      → (adopt_status env w s reply).retries ≡ n
  unfolding adopt_status with_picker
  adopt_status-counters w s reply n e = ground arith

  attempt-counters :
      (w : World S) (rec called : TransitionRecord) (wrapped : String → String) (reply : Reply)
      (succeed : World S → Outcome S) (n : List (String × ℕ))
      → w.retries ≡ n
      → ((w1 : World S) → w1.retries ≡ n → LeavesCounters n (succeed w1))
      → LeavesCounters n (attempt env w rec called wrapped reply succeed)
  unfolding attempt
  attempt-counters w rec called wrapped reply succeed n e k =
      append_or_fail-counters w rec wrapped
        (λ w1. elim reply.error as (λ x. Outcome S) [
          | none ↦ succeed w1
          | some m ↦ refuse env w1 called m
        ])
        n e
        λ w1 e1. elim (Option-cases reply.error) [
          | inl fine ↦ rw fine (k w1 e1)
          | inr (m, bad) ↦ rw bad (refuse-counters w1 called m n e1)
        ]

  fire_retry_payment-counters :
      (w : World S) (s : Subject) (reply : Reply) (n : List (String × ℕ))
      → w.retries ≡ n
      → LeavesCounters n (fire_retry_payment env w s reply)
  unfolding fire_retry_payment
  fire_retry_payment-counters w s reply n e =
      attempt-counters w _ _ _ reply _ n e
        (λ w1 e1. append_last-counters _ _ n (adopt_status-counters w1 s reply n e1))

  after_retry-counters :
      (rec : TransitionRecord) (o : Outcome S) (n : List (String × ℕ))
      → LeavesCounters n o
      → LeavesCounters n (after_retry env rec o)
  unfolding after_retry
  after_retry-counters rec (done w) n e = append_last-counters w _ n e
  after_retry-counters rec (failed w m) n e = refuse-counters w rec m n e
  after_retry-counters rec panicked n e = e

  escalate-counters :
      (w : World S) (s : Subject) (rec : TransitionRecord) (n : List (String × ℕ))
      → w.retries ≡ n
      → LeavesCounters n (escalate w s rec)
  unfolding escalate with_picker
  escalate-counters w s rec n e = append_or_fail-counters w _ (λ m. m) _ n e (λ w1 e1. e1)

  step-counters :
      (w : World S) (s : Subject) (reply : Reply)
      → LeavesCounters
          (put s.subscription_id (suc (counter w s.subscription_id)) w.retries)
          (step env w s reply)
  unfolding step
  step-counters w s reply =
      elim (Bool-cases (ltb w.max_retries (suc (counter w s.subscription_id)))) [
        | inl late ↦ rw (late, step) (escalate-counters _ s _ _ refl)
        | inr early ↦
            rw (early, step)
              (append_or_fail-counters _ _ _ _ _ refl
                (λ w1 e1. after_retry-counters _ _ _ (fire_retry_payment-counters w1 s reply _ e1)))
      ]

  counter_of :
      (id : String) (n : ℕ) (m : List (String × ℕ)) (o : Outcome S)
      → LeavesCounters (put id n m) o
      → CountsTo id n o
  unfolding counter
  counter_of id n m (done w) e = ground (arith, e, find-put id id n m, is_key_refl id)
  counter_of id n m (failed w x) e = ground (arith, e, find-put id id n m, is_key_refl id)
  counter_of id n m panicked e = e

  -- Each step of the walker counts, whatever the platform answers: a step after which the subscription
  -- is ACTIVE again raises the counter of the next one too.
  pub step_counts :
      (w : World S) (s : Subject) (reply : Reply)
      → CountsTo s.subscription_id (suc (counter w s.subscription_id)) (step env w s reply)
  step_counts w s reply =
      counter_of s.subscription_id (suc (counter w s.subscription_id)) w.retries
        (step env w s reply) (step-counters w s reply)

  -- The picker after an escalation.
  abbrev escalated : World S → Subject → Picker S
  escalated w s =
      mark_suspended (set_live_state w.picker s.subscription_id suspended) s.subscription_id

  abbrev counted : World S → Subject → World S
  counted w s = record w {
    retries = put s.subscription_id (suc (counter w s.subscription_id)) w.retries;
  }

  -- The row of the step that comes after the limit.
  abbrev pub late_row : World S → Subject → TransitionRecord
  late_row w s =
      let current = suc (counter w s.subscription_id) in
      record (new_intent s dunning_escalate) {
        dunning_attempt = current;
        idempotency_key = env.step_key (env.idempotency_key s dunning_step) current;
      }

  abbrev pub escalation_row : World S → Subject → TransitionRecord
  escalation_row w s = record (late_row w s) {
    expected_post_state = "SUSPENDED";
    transition_status = ok;
  }
