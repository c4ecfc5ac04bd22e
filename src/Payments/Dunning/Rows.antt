-- ===== src/Payments/Dunning/Rows.antt =====
-- What one walk writes into the log, and the order of its attempts (internal/payments/dunning.go).
use mathlib.Core.List.{append-nil, append_assoc}
use aforo_nextgen_loadgen.Base.{
  ℕ, zero, suc, ◌≤◌, ◌≡◌, refl, sym, ap, ◌∙◌, ◌⊎◌, inl, inr, String, Option, none, some, List, [],
  ◌∷◌, ◌++◌, map, length, arith, is_key, if◌then◌else◌, Bool-cases, ◌==◌, ◌≢◌,
}
use aforo_nextgen_loadgen.Lifecycle.TransitionLog.{TransitionRecord, TransitionLog, append}
use aforo_nextgen_loadgen.Payments.Dunning.{
  DunningAttempt, DunningHistory, Texts, Turn, cancelled, answered, Walked, exhausted, step_record,
  failed_attempt, is_recovered, recovered_attempt, with_attempt, append_step, walk_from,
}

-- The attempts are numbered from `n` on, without a gap.
abbrev pub IsNumbered : ℕ → List DunningAttempt → Type 0
IsNumbered n [] = Unit
IsNumbered n (a ∷ rest) = (a.number ≡ n) × IsNumbered (suc n) rest

pub Turn-cases :
    (t : Turn)
    → ((e : String) × (t ≡ cancelled e))
      ⊎ ((status : ℕ) × (err : Option String) × (sub_status : String) × (t
            ≡ answered status err sub_status))
Turn-cases (cancelled e) = inl (e, refl)
Turn-cases (answered status err sub_status) = inr (status, err, sub_status, refl)

module _ (texts : Texts) (prefix : String) (tenant sub : String) where
  -- The row that an attempt of the history leaves in the log.
  abbrev pub row_of : DunningAttempt → TransitionRecord
  row_of a =
      step_record tenant sub a.number (texts.idem prefix sub a.number) a.http_status a.outcome
        (if is_key a.outcome "succeeded" then "" else a.note)

  -- `new` are the attempts between two points of the walk.
  pub record Logged (n left : ℕ) (hist : DunningHistory) (log : TransitionLog) (w : Walked)
      : Type 0 where
    pub new : List DunningAttempt
    pub attempts_are : w.hist.attempts ≡ hist.attempts ++ new
    pub rows_are : w.log.rows ≡ log.rows ++ map row_of new
    pub numbered : IsNumbered n new
    pub few : length new ≤ left
    pub writes_succeed : w.log.faults ≡ []
    pub same_tenant : w.hist.tenant_id ≡ tenant
    pub same_sub : w.hist.subscription_id ≡ sub
    pub at_end : w.end ≡ exhausted → length new ≡ left

  pub append-faultless :
      (l : TransitionLog) (rec : TransitionRecord)
      → l.faults ≡ []
      → ((append l rec).0.rows ≡ l.rows ++ rec ∷ []) × ((append l rec).0.faults ≡ [])
  unfolding append
  append-faultless l rec h = rw h (refl, refl)

  append_step-faultless :
      (hist : DunningHistory) (a : DunningAttempt) (note : String) (l : TransitionLog)
      → l.faults ≡ []
      → hist.tenant_id ≡ tenant
      → hist.subscription_id ≡ sub
      → (if is_key a.outcome "succeeded" then "" else a.note) ≡ note
      → ((append_step texts prefix hist a note l).rows ≡ l.rows ++ row_of a ∷ [])
        × ((append_step texts prefix hist a note l).faults ≡ [])
  unfolding append_step
  append_step-faultless hist a note l h t s e = rw (t, s, sym e) (append-faultless l (row_of a) h)

  failed_note :
      (n status : ℕ) (err : Option String) (sub_status : String)
      → let a = failed_attempt texts n status err sub_status in
        ((if is_key a.outcome "succeeded" then "" else a.note) ≡ a.note) × (a.number ≡ n)
  unfolding failed_attempt
  failed_note n status none sub_status = (refl, refl)
  failed_note n status (some e) sub_status = elim (Bool-cases (status == 0)) [
    | inl none_came ↦ rw (none_came, failed_attempt) (refl, refl)
    | inr came ↦ rw (came, failed_attempt) (refl, refl)
  ]

  -- One attempt more at the front of what follows it.
  after_attempt :
      (n left : ℕ) (a : DunningAttempt) (hist : DunningHistory) (log log' : TransitionLog)
      (w : Walked)
      → a.number ≡ n
      → log'.rows ≡ log.rows ++ row_of a ∷ []
      → Logged (suc n) left (with_attempt hist a) log' w
      → Logged n (suc left) hist log w
  unfolding with_attempt
  after_attempt n left a hist log log' w number rows l = record {
    new = a ∷ l.new;
    attempts_are = l.attempts_are ∙ append_assoc hist.attempts (a ∷ []) l.new;
    rows_are =
        l.rows_are
        ∙ ap (λ r. r ++ map row_of l.new) rows
        ∙ append_assoc log.rows (row_of a ∷ []) (map row_of l.new);
    numbered = (number, l.numbered);
    few = omega (arith, l.few);
    writes_succeed = l.writes_succeed;
    same_tenant = l.same_tenant;
    same_sub = l.same_sub;
    at_end = λ e. ap suc (l.at_end e);
  }

  -- A walk that ends here, and not because the attempts are used up.
  ends_here :
      (n left : ℕ) (hist : DunningHistory) (log : TransitionLog) (w : Walked)
      → w.hist.attempts ≡ hist.attempts
      → w.log ≡ log
      → log.faults ≡ []
      → w.hist.tenant_id ≡ tenant
      → w.hist.subscription_id ≡ sub
      → w.end ≢ exhausted
      → Logged n left hist log w
  ends_here n left hist log w same same_log h t s early = record {
    new = [];
    attempts_are = same ∙ sym (append-nil _);
    rows_are = ap (λ l. l.rows) same_log ∙ sym (append-nil _);
    numbered = tt;
    few = omega arith;
    writes_succeed = ap (λ l. l.faults) same_log ∙ h;
    same_tenant = t;
    same_sub = s;
    at_end = λ e. absurd (early e);
  }

  pub walk_from-Logged :
      (turn : ℕ → Turn) (left n : ℕ) (hist : DunningHistory) (log : TransitionLog)
      → log.faults ≡ []
      → hist.tenant_id ≡ tenant
      → hist.subscription_id ≡ sub
      → Logged n left hist log (walk_from texts prefix turn left n hist log)
  unfolding walk_from with_attempt recovered_attempt
  walk_from-Logged turn zero n hist log h t s = record {
    new = [];
    attempts_are = sym (append-nil _);
    rows_are = sym (append-nil _);
    numbered = tt;
    few = omega arith;
    writes_succeed = h;
    same_tenant = t;
    same_sub = s;
    at_end = λ e. refl;
  }
  walk_from-Logged turn (suc left) n hist log h t s = elim (Turn-cases (turn n)) [
    | inl (e, now) ↦
        rw (now, walk_from) (ends_here n (suc left) hist log _ refl refl h t s (λ e. cc))
    | inr (status, err, sub_status, now) ↦ elim (Bool-cases (is_recovered err sub_status)) [
      | inl up ↦
          let a = recovered_attempt n status in
          let wrote = append_step-faultless hist a "" log h t s refl in
          rw (now, walk_from)
            (rw (up, walk_from)
              (after_attempt n left a hist log (append_step texts prefix hist a "" log) _ refl
                wrote.0
                (ends_here (suc n) left (with_attempt hist a) _ _ refl refl wrote.1 t s (λ e. cc))))
      | inr down ↦
          let a = failed_attempt texts n status err sub_status in
          let noted = failed_note n status err sub_status in
          let wrote = append_step-faultless hist a a.note log h t s noted.0 in
          rw (now, walk_from)
            (rw (down, walk_from)
              (after_attempt n left a hist log (append_step texts prefix hist a a.note log) _
                noted.1 wrote.0
                (walk_from-Logged turn left (suc n) (with_attempt hist a) _ wrote.1 t s)))
    ]
  ]
