-- ===== src/Validate/StateMachineInvariants/Trace.antt =====
-- What the probe loop of Check 10 has asked, and what it reports of the answers
-- (internal/validate/state_machine_invariants.go).
use aforo_nextgen_loadgen.Base.{
  ℕ, suc, Bool, true, false, ◌≡◌, refl, sym, ◌∙◌, ap, ◌⊎◌, inl, inr, String, Option, none, some,
  List, [], ◌∷◌, ◌++◌, map, length, length-append, All, arith, if◌then◌else◌,
}
use aforo_nextgen_loadgen.Lifecycle.TransitionLog.{TransitionRecord, ok, same_status}
use aforo_nextgen_loadgen.Validate.StateMachineInvariants.{
  Violation, Audit, audit_missing, audit_violation, note_probe, audit_rows,
}
use aforo_nextgen_loadgen.Validate.StateMachineInvariants.Turn.{passed_over, marked, due_new, turn}

-- A row of the log.
abbrev pub In : TransitionRecord → List TransitionRecord → Type 0
In t [] = ⊥
In t (r ∷ rest) = (t ≡ r) ⊎ In t rest

module _ (probe : String → String → Option Bool) where
  -- The reads that the platform answered, of the rows asked about, the latest first.
  abbrev pub answered : List TransitionRecord → ℕ
  answered [] = 0
  answered (t ∷ ts) = elim (probe t.tenant_id t.subscription_id) [
    | none ↦ answered ts
    | some recorded ↦ suc (answered ts)
  ]

  -- A violation for each row whose read says that there is no audit row, in the order of the reads.
  abbrev pub refused : List TransitionRecord → List Violation
  refused [] = []
  refused (t ∷ ts) = elim (probe t.tenant_id t.subscription_id) [
    | none ↦ refused ts
    | some recorded ↦
        if recorded
        then refused ts
        else refused ts
          ++ record {
            index = 0;
            subscription_id = t.subscription_id;
            transition = t.transition;
            from_state = "";
            expected_to = "";
            reason = audit_missing;
          }
            ∷ []
  ]

  -- The loop has asked about exactly `asked`, the latest first, which are OK rows of the log.
  pub record IsTrace (rows asked : List TransitionRecord) (a : Audit) : Type 0 where
    pub seen : a.seen ≡ map (λ (t : TransitionRecord). t.subscription_id) asked
    pub from_log : All (λ t. In t rows) asked
    pub accepted : All (λ (t : TransitionRecord). same_status t.transition_status ok ≡ true) asked
    pub checked : a.checked ≡ answered asked
    pub missing : a.missing ≡ length (refused asked)
    pub found : a.found ≡ refused asked

  refused_same :
      (asked : List TransitionRecord) (t : TransitionRecord)
      → (probe t.tenant_id t.subscription_id ≡ none)
        ⊎ (probe t.tenant_id t.subscription_id ≡ some true)
      → refused (t ∷ asked) ≡ refused asked
  refused_same asked t (inl failed) = rw (failed, refused) refl
  refused_same asked t (inr answer) = rw (answer, refused) refl

  refused_more :
      (asked : List TransitionRecord) (t : TransitionRecord)
      → probe t.tenant_id t.subscription_id ≡ some false
      → refused (t ∷ asked) ≡ refused asked ++ audit_violation t ∷ []
  unfolding audit_violation
  refused_more asked t answer = rw (answer, refused) refl

  unheard-IsTrace :
      (rows asked : List TransitionRecord) (t : TransitionRecord) (a : Audit)
      → IsTrace rows asked a
      → In t rows
      → passed_over t a ≡ false
      → probe t.tenant_id t.subscription_id ≡ none
      → IsTrace rows (t ∷ asked) (marked t a)
  unheard-IsTrace rows asked t a h logged due failed = record {
    seen = ap (λ ids. t.subscription_id ∷ ids) h.seen;
    from_log = (logged, h.from_log);
    accepted = ((due_new t a due).0, h.accepted);
    checked = rw (failed, answered) h.checked;
    missing =
        h.missing
        ∙ ap (λ (vs : List Violation). length vs) (sym (refused_same asked t (inl failed)));
    found = h.found ∙ sym (refused_same asked t (inl failed));
  }

  note_probe-IsTrace :
      (rows asked : List TransitionRecord) (t : TransitionRecord) (a : Audit) (b : Bool)
      → IsTrace rows asked a
      → In t rows
      → passed_over t a ≡ false
      → probe t.tenant_id t.subscription_id ≡ some b
      → IsTrace rows (t ∷ asked) (note_probe (marked t a) t b)
  unfolding note_probe audit_violation
  note_probe-IsTrace rows asked t a true h logged due answer = record {
    seen = ap (λ ids. t.subscription_id ∷ ids) h.seen;
    from_log = (logged, h.from_log);
    accepted = ((due_new t a due).0, h.accepted);
    checked = rw (answer, answered) (ap suc h.checked);
    missing =
        h.missing
        ∙ ap (λ (vs : List Violation). length vs) (sym (refused_same asked t (inr answer)));
    found = h.found ∙ sym (refused_same asked t (inr answer));
  }
  note_probe-IsTrace rows asked t a false h logged due answer = record {
    seen = ap (λ ids. t.subscription_id ∷ ids) h.seen;
    from_log = (logged, h.from_log);
    accepted = ((due_new t a due).0, h.accepted);
    checked = rw (answer, answered) (ap suc h.checked);
    missing = omega (
      arith,
      h.missing,
      ap (λ (vs : List Violation). length vs) (refused_more asked t answer),
      length-append {0} (refused asked) (audit_violation t ∷ []),
    );
    found =
        ap (λ (vs : List Violation). vs ++ audit_violation t ∷ []) h.found
        ∙ sym (refused_more asked t answer);
  }

  pub audit_rows-IsTrace :
      (rows rest asked : List TransitionRecord) (a : Audit)
      → All (λ t. In t rows) rest
      → IsTrace rows asked a
      → (last : List TransitionRecord) × IsTrace rows last (audit_rows probe rest a)
  unfolding audit_rows
  audit_rows-IsTrace rows [] asked a logged h = (asked, h)
  audit_rows-IsTrace rows (t ∷ rest) asked a logged h = elim (turn probe t rest a) [
    | inl (over, same) ↦ rw same (audit_rows-IsTrace rows rest asked a logged.1 h)
    | inr (inl (due, failed, next)) ↦ rw next (
        audit_rows-IsTrace rows rest (t ∷ asked) (marked t a) logged.1
          (unheard-IsTrace rows asked t a h logged.0 due failed))
    | inr (inr (b, due, answer, inl (full, stop))) ↦
        rw stop ((t ∷ asked, note_probe-IsTrace rows asked t a b h logged.0 due answer))
    | inr (inr (b, due, answer, inr (more, next))) ↦ rw next (
        audit_rows-IsTrace rows rest (t ∷ asked) (note_probe (marked t a) t b) logged.1
          (note_probe-IsTrace rows asked t a b h logged.0 due answer))
  ]
