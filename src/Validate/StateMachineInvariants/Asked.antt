-- ===== src/Validate/StateMachineInvariants/Asked.antt =====
-- Which subscriptions Check 10 asks the platform about, and what it reports of the answers
-- (internal/validate/state_machine_invariants.go).
use aforo_nextgen_loadgen.Base.{
  suc, ◌<◌, Bool, true, false, ◌≡◌, refl, subst, sym, ◌⊎◌, inl, inr, String, Option, List, [], ◌∷◌,
  All, arith, is_key_refl, Bool-cases, All-map_imp,
}
use aforo_nextgen_loadgen.Lifecycle.TransitionLog.{TransitionRecord, ok, same_status}
use aforo_nextgen_loadgen.Validate.StateMachineInvariants.{
  Audit, was_seen, note_probe, audit_rows, no_audit,
}
use aforo_nextgen_loadgen.Validate.StateMachineInvariants.Probes.{IsBounded, probes-IsBounded}
use aforo_nextgen_loadgen.Validate.StateMachineInvariants.Trace.{In, IsTrace, audit_rows-IsTrace}
use aforo_nextgen_loadgen.Validate.StateMachineInvariants.Turn.{passed_over, marked, turn}

module _ (probe : String → String → Option Bool) where
  note_probe-seen : (a : Audit) (t : TransitionRecord) (b : Bool) → (note_probe a t b).seen ≡ a.seen
  unfolding note_probe
  note_probe-seen a t true = refl
  note_probe-seen a t false = refl

  note_probe-checked :
      (a : Audit) (t : TransitionRecord) (b : Bool) → (note_probe a t b).checked ≡ suc a.checked
  unfolding note_probe
  note_probe-checked a t true = refl
  note_probe-checked a t false = refl

  was_seen-marked :
      (id : String) (t : TransitionRecord) (a : Audit)
      → was_seen id a.seen ≡ true
      → was_seen id (marked t a).seen ≡ true
  unfolding was_seen
  was_seen-marked id t a h = ground arith

  -- What was asked stays asked.
  audit_rows-seen :
      (id : String) (rest : List TransitionRecord) (a : Audit)
      → was_seen id a.seen ≡ true
      → was_seen id (audit_rows probe rest a).seen ≡ true
  unfolding audit_rows
  audit_rows-seen id [] a h = h
  audit_rows-seen id (t ∷ rest) a h =
      let noted : (b : Bool) → was_seen id (note_probe (marked t a) t b).seen ≡ true =
        λ b. rw (note_probe-seen (marked t a) t b) (was_seen-marked id t a h) in
      elim (turn probe t rest a) [
        | inl (over, same) ↦ rw same (audit_rows-seen id rest a h)
        | inr (inl (due, failed, next)) ↦
            rw next (audit_rows-seen id rest (marked t a) (was_seen-marked id t a h))
        | inr (inr (b, due, answer, inl (full, stop))) ↦ rw stop (noted b)
        | inr (inr (b, due, answer, inr (more, next))) ↦
            rw next (audit_rows-seen id rest (note_probe (marked t a) t b) (noted b))
      ]

  -- A row that the loop has no more to ask about.
  abbrev pub IsSettled : List String → TransitionRecord → Type 0
  IsSettled seen t =
      (same_status t.transition_status ok ≡ false) ⊎ (was_seen t.subscription_id seen ≡ true)

  -- Fifty answers, or nothing left to ask.
  abbrev pub IsComplete : List TransitionRecord → Audit → Type 0
  IsComplete rows a = (a.checked ≡ 50) ⊎ All (λ t. IsSettled a.seen t) rows

  was_seen-first :
      (t : TransitionRecord) (a : Audit) → was_seen t.subscription_id (marked t a).seen ≡ true
  unfolding was_seen
  was_seen-first t a = ground (arith, is_key_refl t.subscription_id)

  IsSettled-over :
      (t : TransitionRecord) (rest : List TransitionRecord) (a : Audit)
      → passed_over t a ≡ true
      → IsSettled (audit_rows probe rest a).seen t
  IsSettled-over t rest a over = elim (Bool-cases (same_status t.transition_status ok)) [
    | inr other ↦ inl other
    | inl accepted ↦ inr (audit_rows-seen t.subscription_id rest a (ground arith))
  ]

  with_first :
      (t : TransitionRecord) (rest : List TransitionRecord) (a : Audit)
      → IsSettled a.seen t
      → IsComplete rest a
      → IsComplete (t ∷ rest) a
  with_first t rest a first (inl full) = inl full
  with_first t rest a first (inr later) = inr (first, later)

  audit_rows-IsComplete :
      (rest : List TransitionRecord) (a : Audit)
      → a.checked < 50
      → IsComplete rest (audit_rows probe rest a)
  unfolding audit_rows
  audit_rows-IsComplete [] a room = inr tt
  audit_rows-IsComplete (t ∷ rest) a room = elim (turn probe t rest a) [
    | inl (over, same) ↦ subst (IsComplete (t ∷ rest)) (sym same) (
        with_first t rest (audit_rows probe rest a) (IsSettled-over t rest a over)
          (audit_rows-IsComplete rest a room))
    | inr (inl (due, failed, next)) ↦ subst (IsComplete (t ∷ rest)) (sym next) (
        with_first t rest (audit_rows probe rest (marked t a))
          (inr (audit_rows-seen t.subscription_id rest (marked t a) (was_seen-first t a)))
          (audit_rows-IsComplete rest (marked t a) room))
    | inr (inr (b, due, answer, inl (full, stop))) ↦
        subst (IsComplete (t ∷ rest)) (sym stop)
          (inl (ground (arith, note_probe-checked (marked t a) t b, full)))
    | inr (inr (b, due, answer, inr (more, next))) ↦
        let a2 = note_probe (marked t a) t b in
        let first : was_seen t.subscription_id a2.seen ≡ true =
          rw (note_probe-seen (marked t a) t b) (was_seen-first t a) in
        subst (IsComplete (t ∷ rest)) (sym next) (
          with_first t rest (audit_rows probe rest a2)
            (inr (audit_rows-seen t.subscription_id rest a2 first))
            (audit_rows-IsComplete rest a2
              (ground (arith, note_probe-checked (marked t a) t b, more))))
  ]

  all-In : (rows : List TransitionRecord) → All (λ t. In t rows) rows
  all-In [] = tt
  all-In (t ∷ rows) = (inl refl, All-map_imp (λ u (i : In u rows). inr i) rows (all-In rows))

  no_asked-IsTrace : (rows : List TransitionRecord) → IsTrace probe rows [] no_audit
  no_asked-IsTrace rows = record {
    seen = refl;
    from_log = tt;
    accepted = tt;
    checked = refl;
    missing = refl;
    found = refl;
  }

-- Whatever the log and the answers, Check 10 asks about OK rows of the log, about no subscription twice, and goes
-- on until it has fifty answers or has asked about every subscription with an OK row; a read that fails is
-- not repeated and is no answer. Its violations are exactly one for each answer that says that there is no
-- audit row, in the order of the reads.
pub probes-IsTrace :
    (probe : String → String → Option Bool) (rows : List TransitionRecord)
    → let a = audit_rows probe rows no_audit in
      IsBounded a
      × ((asked : List TransitionRecord) × IsTrace probe rows asked a)
      × IsComplete probe rows a
probes-IsTrace probe rows = (
  probes-IsBounded probe rows,
  audit_rows-IsTrace probe rows rows [] no_audit (all-In probe rows) (no_asked-IsTrace probe rows),
  audit_rows-IsComplete probe rows no_audit (omega arith),
)
