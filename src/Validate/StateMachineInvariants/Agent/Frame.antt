-- ===== src/Validate/StateMachineInvariants/Agent/Frame.antt =====
-- The shared steps of the transition modules (internal/lifecycle/helpers.go) keep a clean world clean.
use aforo_nextgen_loadgen.Base.{
  true, ◌≡◌, refl, inl, inr, String, Option, none, some, List, [], ◌∷◌, All, All-append, is_key,
  Option-cases, Bool-cases,
}
use aforo_nextgen_loadgen.Lifecycle.State.{SubscriptionState, wire}
use aforo_nextgen_loadgen.Lifecycle.StateMachine.{
  TransitionKind, can_fire_from, expected_post_state,
}
use aforo_nextgen_loadgen.Lifecycle.StateMachine.Legality.{can_fire_from-is_legal}
use aforo_nextgen_loadgen.Lifecycle.Wire.{KeepsNames, IsKnown, from_platform_status}
use aforo_nextgen_loadgen.Lifecycle.Picker.{Subject, Picker, set_live_state}
use aforo_nextgen_loadgen.Lifecycle.TransitionLog.{
  TransitionRecord, TransitionLog, append, append_to,
}
use aforo_nextgen_loadgen.Lifecycle.ResumeScheduler.Counter.{Balanced}
use aforo_nextgen_loadgen.Lifecycle.World.{
  Env, Reply, World, Outcome, done, failed, panicked, append_or_fail, append_anyway, append_last,
  refuse, log_skip, with_picker, adopt_status, attempt, land,
}
use aforo_nextgen_loadgen.Validate.StateMachineInvariants.Rows.{
  Blameless, ExpectsLegal, expects-Blameless,
}

module _ {κ} (P : TransitionRecord → Type κ) where
  append_to-All :
      (l : TransitionLog) (faults : List (Option String)) (r : TransitionRecord)
      → All P l.rows
      → P r
      → All P (append_to l faults r).0.rows
  unfolding append_to
  append_to-All l [] r h p = All-append P l.rows (r ∷ []) h (p, tt)
  append_to-All l (none ∷ faults) r h p = All-append P l.rows (r ∷ []) h (p, tt)
  append_to-All l (some e ∷ faults) r h p = h

  pub append-All :
      (l : TransitionLog) (r : TransitionRecord) → All P l.rows → P r → All P (append l r).0.rows
  unfolding append
  append-All l r h p = append_to-All l l.faults r h p

module _ {S : Type 0} (env : Env S) where
  -- Every row is one that Check 10 accepts, up to the platform's own answers, and the resumes balance.
  pub record CleanWorld (w : World S) : Type 0 where
    pub rows : All (Blameless env.strings) w.log.rows
    pub resumes : Balanced w.resumes

  -- The call does not panic, and leaves a clean world whether it succeeds or fails.
  abbrev pub Ensures : Outcome S → Type 0
  Ensures (done w) = CleanWorld w
  Ensures (failed w e) = CleanWorld w
  Ensures panicked = ⊥

  abbrev pub IsClean : TransitionRecord → Type 0
  IsClean = Blameless env.strings

  pub append-Clean :
      (w : World S) (r : TransitionRecord)
      → CleanWorld w
      → IsClean r
      → CleanWorld (record w { log = (append w.log r).0 })
  append-Clean w r c p = record { rows = append-All IsClean w.log r c.rows p; resumes = c.resumes }

  pub append_or_fail-Ensures :
      (w : World S) (r : TransitionRecord) (wrapped : String → String) (next : World S → Outcome S)
      → CleanWorld w
      → IsClean r
      → ((w1 : World S) → CleanWorld w1 → Ensures (next w1))
      → Ensures (append_or_fail w r wrapped next)
  unfolding append_or_fail
  append_or_fail-Ensures w r wrapped next c p k = elim (Option-cases (append w.log r).1) [
    | inl wrote ↦ rw (wrote, append_or_fail) (k _ (append-Clean w r c p))
    | inr (e, refused) ↦ rw (refused, append_or_fail) (append-Clean w r c p)
  ]

  pub append_anyway-Clean :
      (w : World S) (r : TransitionRecord)
      → CleanWorld w
      → IsClean r
      → CleanWorld (append_anyway w r)
  unfolding append_anyway
  append_anyway-Clean w r c p = append-Clean w r c p

  pub append_last-Ensures :
      (w : World S) (r : TransitionRecord) → CleanWorld w → IsClean r → Ensures (append_last w r)
  unfolding append_last
  append_last-Ensures w r c p = append_or_fail-Ensures w r (λ m. m) done c p (λ w1 c1. c1)

  pub with_picker-Clean :
      (w : World S) (f : Picker S → Picker S) → CleanWorld w → CleanWorld (with_picker w f)
  unfolding with_picker
  with_picker-Clean w f c = record { rows = c.rows; resumes = c.resumes }

  pub adopt_status-Clean :
      (w : World S) (s : Subject) (reply : Reply)
      → CleanWorld w
      → CleanWorld (adopt_status env w s reply)
  unfolding adopt_status
  adopt_status-Clean w s reply c = elim (Bool-cases (is_key reply.status "")) [
    | inl silent ↦ rw silent c
    | inr spoken ↦ rw spoken (
        with_picker-Clean w
          (λ p. set_live_state p s.subscription_id (from_platform_status env.strings reply.status))
          c)
  ]

  pub refuse-Ensures :
      (w : World S) (r : TransitionRecord) (e : String)
      → CleanWorld w
      → ((r' : TransitionRecord)
          → r'.transition ≡ r.transition
          → r'.from_state ≡ r.from_state
          → r'.expected_post_state ≡ r.expected_post_state
          → IsClean r')
      → Ensures (refuse env w r e)
  unfolding refuse
  refuse-Ensures w r e c p = append_anyway-Clean w _ c (p _ refl refl refl)

  pub attempt-Ensures :
      (w : World S) (rec called : TransitionRecord) (wrapped : String → String) (reply : Reply)
      (succeed : World S → Outcome S)
      → CleanWorld w
      → IsClean rec
      → ((r : TransitionRecord)
          → r.transition ≡ called.transition
          → r.from_state ≡ called.from_state
          → r.expected_post_state ≡ called.expected_post_state
          → IsClean r)
      → ((w1 : World S) → CleanWorld w1 → Ensures (succeed w1))
      → Ensures (attempt env w rec called wrapped reply succeed)
  unfolding attempt
  attempt-Ensures w rec called wrapped reply succeed c p refused k =
      append_or_fail-Ensures w rec wrapped
        (λ w1. elim reply.error as (λ x. Outcome S) [
          | none ↦ succeed w1
          | some e ↦ refuse env w1 called e
        ])
        c p
        λ w1 c1. elim (Option-cases reply.error) [
          | inl fine ↦ rw fine (k w1 c1)
          | inr (e, bad) ↦ rw bad (refuse-Ensures w1 called e c1 refused)
        ]

  pub land-Ensures :
      (w : World S) (called : TransitionRecord) (expected : String) (update : World S → World S)
      → CleanWorld w
      → ((r : TransitionRecord)
          → r.transition ≡ called.transition
          → r.from_state ≡ called.from_state
          → r.expected_post_state ≡ expected
          → IsClean r)
      → ((w1 : World S) → CleanWorld w1 → CleanWorld (update w1))
      → Ensures (land w called expected update)
  unfolding land
  land-Ensures w called expected update c p k =
      append_or_fail-Ensures w _ (λ m. m) (λ w1. done (update w1)) c (p _ refl refl refl) k

  -- A row of this kind, from this state, that expects nothing or a legal state.
  module _ (keeps : KeepsNames env.strings) (from : SubscriptionState) (kind : TransitionKind)
      (fires : can_fire_from kind from ≡ true) where
    pub row-IsClean :
        (r : TransitionRecord)
        → r.transition ≡ kind
        → r.from_state ≡ wire from
        → ExpectsLegal from r.expected_post_state
        → IsClean r
    row-IsClean r same sent expects =
        expects-Blameless env.strings keeps r from sent (rw same fires) expects

    pub plain_row-IsClean :
        (r : TransitionRecord)
        → r.transition ≡ kind
        → r.from_state ≡ wire from
        → r.expected_post_state ≡ ""
        → IsClean r
    plain_row-IsClean r same sent empty = row-IsClean r same sent (inl empty)

    pub landed_row-IsClean :
        (to : SubscriptionState)
        → IsKnown to
        → expected_post_state kind from ≡ some to
        → (r : TransitionRecord) → r.transition ≡ kind
        → r.from_state ≡ wire from
        → r.expected_post_state ≡ wire to
        → IsClean r
    landed_row-IsClean to known e r same sent expects =
        row-IsClean r same sent
          (inr (to, known, expects, can_fire_from-is_legal kind from to fires e))

  pub log_skip-Ensures :
      (keeps : KeepsNames env.strings) (s : Subject) (kind : TransitionKind)
      (fires : can_fire_from kind s.state ≡ true) (w : World S) (reason : String)
      → CleanWorld w
      → Ensures (log_skip w s kind reason)
  unfolding log_skip
  log_skip-Ensures keeps s kind fires w reason c =
      append_last-Ensures w _ c (plain_row-IsClean keeps s.state kind fires _ refl refl refl)

  pub repick : (w : World S) (p : Picker S) → CleanWorld w → CleanWorld (record w { picker = p })
  repick w p c = record { rows = c.rows; resumes = c.resumes }
