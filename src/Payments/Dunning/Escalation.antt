-- ===== src/Payments/Dunning/Escalation.antt =====
-- The end of a walk: the escalation's row, and when it is written (internal/payments/dunning.go).
use mathlib.Core.List.{append-nil}
use aforo_nextgen_loadgen.Base.{
  ℕ, zero, suc, ◌≤◌, ◌≡◌, refl, sym, ap, ◌∙◌, subst, ◌⊎◌, ◌↔◌, inl, inr, true, false, String,
  Option, none, some, List, [], ◌∷◌, ◌++◌, map, length, arith,
}
use aforo_nextgen_loadgen.Lifecycle.TransitionLog.{TransitionRecord, TransitionLog, ok}
use aforo_nextgen_loadgen.Payments.Dunning.{
  DunningHistory, DunningDriver, Texts, Turn, answered, Walked, LoopEnd, stopped, recovered,
  exhausted, is_recovered, walk_from, finish, escalate, walk, new_history, escalation_record,
  terminal_status, is_escalated, observe_terminal_state,
}
use aforo_nextgen_loadgen.Payments.Dunning.Rows.{
  IsNumbered, row_of, Logged, append-faultless, walk_from-Logged,
}

-- The row of the escalation, from what the last read has shown.
abbrev pub escalation_row : Texts → String → String → Option String → String → TransitionRecord
escalation_row texts tenant sub get_err final_state =
    escalation_record tenant sub (terminal_status (is_escalated final_state) get_err)
      (texts.post_max final_state (is_escalated final_state))

-- The row of the escalation says OK exactly if the read answered that the platform has escalated.
pub terminal_status-ok_iff :
    (get_err : Option String) (get_status : String)
    → (terminal_status (is_escalated (observe_terminal_state get_err get_status)) get_err ≡ ok)
      ↔ ((get_err ≡ none) × (is_escalated get_status ≡ true))
unfolding terminal_status observe_terminal_state
terminal_status-ok_iff none get_status = ground arith
terminal_status-ok_iff (some e) get_status = ground arith

module _ (texts : Texts) (prefix tenant sub : String) (before : TransitionLog) (most : ℕ) where
  -- All attempts are used up, and the log ends with the row of the escalation.
  abbrev pub HasEscalated :
      Option String → String → DunningHistory → TransitionLog → Option String → Type 0
  HasEscalated get_err get_status hist after error =
      let row = escalation_row texts tenant sub get_err hist.final_state in
      (length hist.attempts ≡ most)
      × (error ≡ none)
      × (after.rows ≡ before.rows ++ map (row_of texts prefix tenant sub) hist.attempts ++ row ∷ [])
      × ((row.transition_status ≡ ok) ↔ ((get_err ≡ none) × (is_escalated get_status ≡ true)))

module _ (texts : Texts) (prefix tenant sub : String) (before : TransitionLog) (most : ℕ) where
  -- The log after the walk holds one row for each attempt of the history, and at its end the
  -- escalation's row if there is one.
  abbrev pub IsLogged : Option String → DunningHistory → TransitionLog → Type 0
  IsLogged get_err hist after =
      IsNumbered 1 hist.attempts
      × (length hist.attempts ≤ most)
      × ((tail : List TransitionRecord) × (after.rows
            ≡ before.rows ++ map (row_of texts prefix tenant sub) hist.attempts ++ tail)
          × ((tail ≡ [])
              ⊎ ((length hist.attempts ≡ most)
                  × (tail ≡ escalation_row texts tenant sub get_err hist.final_state ∷ []))))

  module _ (invoice : String) (w : Walked)
      (l : Logged texts prefix tenant sub 1 most (new_history tenant sub invoice) before w) where
    rows_of_attempts :
        w.log.rows ≡ before.rows ++ map (row_of texts prefix tenant sub) w.hist.attempts
    unfolding new_history
    rows_of_attempts =
        l.rows_are
        ∙ ap (λ made. before.rows ++ map (row_of texts prefix tenant sub) made) (sym l.attempts_are)

    in_order : IsNumbered 1 w.hist.attempts × (length w.hist.attempts ≤ most)
    unfolding new_history
    in_order = (
      subst (IsNumbered 1) (sym l.attempts_are) l.numbered,
      subst (λ made. length made ≤ most) (sym l.attempts_are) l.few,
    )

    -- Left before the attempts were used up.
    left_early : (get_err : Option String) → IsLogged get_err w.hist w.log
    left_early get_err =
        (in_order.0, in_order.1, ([], rows_of_attempts ∙ sym (append-nil _), inl refl))

    escalate_rows :
        (get_err : Option String) (get_status : String)
        → (escalate texts get_err get_status w).log.rows
          ≡ before.rows
            ++ map (row_of texts prefix tenant sub) w.hist.attempts
            ++ escalation_row texts tenant sub get_err (observe_terminal_state get_err get_status)
              ∷ []
    unfolding escalate
    escalate_rows get_err get_status =
        let rec =
          escalation_row texts tenant sub get_err (observe_terminal_state get_err get_status) in
        let wrote = append-faultless texts prefix tenant sub w.log rec l.writes_succeed in
        rw (l.same_tenant, l.same_sub) (wrote.0 ∙ ap (λ r. r ++ rec ∷ []) rows_of_attempts)

    all_made : w.end ≡ exhausted → length w.hist.attempts ≡ most
    unfolding new_history
    all_made at = ap length l.attempts_are ∙ l.at_end at

    escalate-IsLogged :
        (get_err : Option String) (get_status : String)
        → w.end ≡ exhausted
        → IsLogged get_err
            (escalate texts get_err get_status w).hist
            (escalate texts get_err get_status w).log
    unfolding escalate
    escalate-IsLogged get_err get_status at =
        let rec =
          escalation_row texts tenant sub get_err (observe_terminal_state get_err get_status) in
        (
          in_order.0,
          in_order.1,
          (rec ∷ [], escalate_rows get_err get_status, inr (all_made at, refl)),
        )

    escalate-HasEscalated :
        (get_err : Option String) (get_status : String)
        → w.end ≡ exhausted
        → HasEscalated texts prefix tenant sub before most get_err get_status
            (escalate texts get_err get_status w).hist
            (escalate texts get_err get_status w).log
            none
    unfolding escalate
    escalate-HasEscalated get_err get_status at = (
      all_made at,
      refl,
      escalate_rows get_err get_status,
      terminal_status-ok_iff get_err get_status,
    )

    finish-IsLogged :
        (get_err : Option String) (get_status : String) (end : LoopEnd)
        → w.end ≡ end
        → IsLogged get_err
            (finish texts get_err get_status w end).0.hist
            (finish texts get_err get_status w end).0.log
    unfolding finish
    finish-IsLogged get_err get_status (stopped e) at = left_early get_err
    finish-IsLogged get_err get_status recovered at = left_early get_err
    finish-IsLogged get_err get_status exhausted at = escalate-IsLogged get_err get_status at

-- With a log whose writes succeed, a walk numbers its attempts 1, 2, ... without a gap, makes no more
-- than the limit, and appends to the log one row for each attempt, in order, and nothing else, or, if it
-- made as many attempts as the limit, at most the row of the escalation.
pub walk-IsLogged :
    (texts : Texts) (turn : ℕ → Turn) (get_err : Option String) (get_status : String)
    (d : DunningDriver) (tenant sub invoice : String)
    → d.transitions.faults ≡ []
    → let r = walk texts turn get_err get_status d tenant sub invoice in
      IsLogged texts d.idem_prefix tenant sub d.transitions d.max_attempts get_err r.1
        r.0.transitions
unfolding walk
walk-IsLogged texts turn get_err get_status d tenant sub invoice h =
    let hist = new_history tenant sub invoice in
    let w = walk_from texts d.idem_prefix turn d.max_attempts 1 hist d.transitions in
    finish-IsLogged texts d.idem_prefix tenant sub d.transitions d.max_attempts invoice w
      (walk_from-Logged texts d.idem_prefix tenant sub turn d.max_attempts 1 hist d.transitions h
        refl refl)
      get_err get_status w.end refl

-- No answer lets the subscription recover, and the context is never cancelled.
abbrev pub IsFailing : (ℕ → Turn) → Type 0
IsFailing turn =
    (n : ℕ)
    → (status : ℕ) × (err : Option String) × (sub_status : String) × (turn n
        ≡ answered status err sub_status)
      × (is_recovered err sub_status ≡ false)

exhausts :
    (texts : Texts) (prefix : String) (turn : ℕ → Turn) (left n : ℕ) (hist : DunningHistory)
    (log : TransitionLog)
    → IsFailing turn
    → (walk_from texts prefix turn left n hist log).end ≡ exhausted
unfolding walk_from
exhausts texts prefix turn zero n hist log fails = refl
exhausts texts prefix turn (suc left) n hist log fails =
    let (status, err, sub_status, now, down) = fails n in
    rw (now, walk_from) (rw (down, walk_from) (exhausts texts prefix turn left (suc n) _ _ fails))

-- If no retry lets the subscription recover, the walk is not cancelled, and the log's writes succeed,
-- then Walk returns without an error after exactly the limit of attempts, the log has a row for each and
-- the row of the escalation, and that row says OK exactly if the read of the subscription has answered
-- SUSPENDED or CANCELLED.
pub walk-HasEscalated :
    (texts : Texts) (turn : ℕ → Turn) (get_err : Option String) (get_status : String)
    (d : DunningDriver) (tenant sub invoice : String)
    → d.transitions.faults ≡ []
    → IsFailing turn
    → let r = walk texts turn get_err get_status d tenant sub invoice in
      HasEscalated texts d.idem_prefix tenant sub d.transitions d.max_attempts get_err get_status
        r.1 r.0.transitions r.2
unfolding walk
walk-HasEscalated texts turn get_err get_status d tenant sub invoice h fails =
    let hist = new_history tenant sub invoice in
    let w = walk_from texts d.idem_prefix turn d.max_attempts 1 hist d.transitions in
    let l =
      walk_from-Logged texts d.idem_prefix tenant sub turn d.max_attempts 1 hist d.transitions h
        refl refl in
    let at = exhausts texts d.idem_prefix turn d.max_attempts 1 hist d.transitions fails in
    subst
      (λ (end : LoopEnd).
        HasEscalated texts d.idem_prefix tenant sub d.transitions d.max_attempts get_err get_status
          (finish texts get_err get_status w end).0.hist
          (finish texts get_err get_status w end).0.log (finish texts get_err get_status w end).1)
      (sym at)
      (escalate-HasEscalated texts d.idem_prefix tenant sub d.transitions d.max_attempts invoice w l
        get_err get_status at)
