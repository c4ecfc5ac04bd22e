-- ===== src/Payments/Dunning/Unjudged.antt =====
-- How Check 10 (internal/validate/state_machine_invariants.go) reads the rows of the dunning driver.
use aforo_nextgen_loadgen.Base.{
  ℕ, zero, suc, ◌≡◌, refl, ◌∙◌, inl, inr, ◌||◌, String, Option, none, some, List, [], ◌∷◌, ◌++◌,
  Bool-cases, Option-cases,
}
use aforo_nextgen_loadgen.Lifecycle.Wire.{Strings}
use aforo_nextgen_loadgen.Lifecycle.TransitionLog.{
  TransitionRecord, TransitionLog, append, append_to, pending, skipped, same_status,
}
use aforo_nextgen_loadgen.Validate.StateMachineInvariants.{row_reason, row_violations}
use aforo_nextgen_loadgen.Payments.Dunning.{
  DunningHistory, DunningDriver, Texts, Turn, Walked, LoopEnd, stopped, recovered, exhausted,
  DunningAttempt, is_recovered, recovered_attempt, failed_attempt, walk_from, append_step, finish,
  escalate, walk, new_history,
}
use aforo_nextgen_loadgen.Payments.Dunning.Rows.{Turn-cases}

module _ (lib : Strings) where
  -- A row that says nothing of the state before it.
  row_reason_blank : (t : TransitionRecord) → t.from_state ≡ "" → row_reason lib t ≡ none
  unfolding row_reason
  row_reason_blank t e =
      rw e
        (elim (Bool-cases
          (same_status t.transition_status skipped || same_status t.transition_status pending)) [
            | inl unfinished ↦ rw (unfinished, row_reason) refl
            | inr finished ↦ rw (finished, row_reason) refl
          ])

  row_violations_blank :
      (i : ℕ) (rows : List TransitionRecord) (t : TransitionRecord)
      → t.from_state ≡ ""
      → row_violations lib i (rows ++ t ∷ []) ≡ row_violations lib i rows
  unfolding row_violations
  row_violations_blank i [] t e = rw (row_reason_blank t e, row_violations) refl
  row_violations_blank i (r ∷ rows) t e = elim (Option-cases (row_reason lib r)) [
    | inl fine ↦ rw (fine, row_violations) (row_violations_blank (suc i) rows t e)
    | inr (reason, bad) ↦ rw (bad, row_violations) (rw (row_violations_blank (suc i) rows t e) refl)
  ]

  -- The same violations in both logs.
  abbrev pub IsSame : TransitionLog → TransitionLog → Type 0
  IsSame after before = row_violations lib 0 after.rows ≡ row_violations lib 0 before.rows

  append_to_blank :
      (l : TransitionLog) (faults : List (Option String)) (t : TransitionRecord)
      → t.from_state ≡ ""
      → IsSame (append_to l faults t).0 l
  unfolding append_to
  append_to_blank l [] t e = row_violations_blank 0 l.rows t e
  append_to_blank l (none ∷ faults) t e = row_violations_blank 0 l.rows t e
  append_to_blank l (some m ∷ faults) t e = refl

  append_blank :
      (l : TransitionLog) (t : TransitionRecord) → t.from_state ≡ "" → IsSame (append l t).0 l
  unfolding append
  append_blank l t e = append_to_blank l l.faults t e

  module _ (texts : Texts) (prefix : String) where
    append_step_blank :
        (hist : DunningHistory) (a : DunningAttempt) (note : String) (l : TransitionLog)
        → IsSame (append_step texts prefix hist a note l) l
    unfolding append_step
    append_step_blank hist a note l = append_blank l _ refl

    walk_from_blank :
        (turn : ℕ → Turn) (left n : ℕ) (hist : DunningHistory) (log : TransitionLog)
        → IsSame (walk_from texts prefix turn left n hist log).log log
    unfolding walk_from
    walk_from_blank turn zero n hist log = refl
    walk_from_blank turn (suc left) n hist log = elim (Turn-cases (turn n)) [
      | inl (e, now) ↦ rw (now, walk_from) refl
      | inr (status, err, sub_status, now) ↦ elim (Bool-cases (is_recovered err sub_status)) [
        | inl up ↦
            rw (now, walk_from)
              (rw (up, walk_from) (append_step_blank hist (recovered_attempt n status) "" log))
        | inr down ↦
            rw (now, walk_from)
              (rw (down, walk_from)
                (walk_from_blank turn left (suc n) _ _
                  ∙ append_step_blank hist (failed_attempt texts n status err sub_status)
                      (failed_attempt texts n status err sub_status).note log))
      ]
    ]

    finish_blank :
        (get_err : Option String) (get_status : String) (w : Walked) (end : LoopEnd)
        → IsSame (finish texts get_err get_status w end).0.log w.log
    unfolding finish escalate
    finish_blank get_err get_status w (stopped e) = refl
    finish_blank get_err get_status w recovered = refl
    finish_blank get_err get_status w exhausted = append_blank w.log _ refl

  -- The driver leaves the state before its rows empty, and the loop of Check 10 over the rows, its parts (a)
  -- to (c), judges no such row: whatever the platform answers, and whether or not the writes succeed, a walk
  -- changes nothing in what that loop reports of the log, an escalation that fails included. This is not about
  -- part (d), which asks the platform about the rows that are OK.
  pub walk-IsSame :
      (texts : Texts) (turn : ℕ → Turn) (get_err : Option String) (get_status : String)
      (d : DunningDriver) (tenant sub invoice : String)
      → IsSame (walk texts turn get_err get_status d tenant sub invoice).0.transitions d.transitions
  unfolding walk
  walk-IsSame texts turn get_err get_status d tenant sub invoice =
      finish_blank texts d.idem_prefix get_err get_status _ _
      ∙ walk_from_blank texts d.idem_prefix turn d.max_attempts 1 (new_history tenant sub invoice)
          d.transitions
