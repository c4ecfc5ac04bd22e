-- ===== src/Validate/StateMachineInvariants/Turn.antt =====
-- One turn of the probe loop of Check 10 (internal/validate/state_machine_invariants.go).
use aforo_nextgen_loadgen.Base.{
  Bool, true, false, not, ◌||◌, ◌≡◌, refl, ◌⊎◌, inl, inr, String, Option, none, some, List, ◌∷◌,
  leb, arith, Bool-cases, Option-cases,
}
use aforo_nextgen_loadgen.Lifecycle.TransitionLog.{TransitionRecord, ok, same_status}
use aforo_nextgen_loadgen.Validate.StateMachineInvariants.{Audit, was_seen, note_probe, audit_rows}

-- The rows that the loop passes over, and the loop with this row marked as seen.
abbrev pub passed_over : TransitionRecord → Audit → Bool
passed_over t a = not (same_status t.transition_status ok) || was_seen t.subscription_id a.seen

abbrev pub marked : TransitionRecord → Audit → Audit
marked t a = record a { seen = t.subscription_id ∷ a.seen }

pub due_new :
    (t : TransitionRecord) (a : Audit)
    → passed_over t a ≡ false
    → (same_status t.transition_status ok ≡ true) × (was_seen t.subscription_id a.seen ≡ false)
due_new t a e = (ground arith, ground arith)

module _ (probe : String → String → Option Bool) where
  -- The ways that one turn of the loop can go.
  pub turn :
      (t : TransitionRecord) (rest : List TransitionRecord) (a : Audit)
      → ((passed_over t a ≡ true) × (audit_rows probe (t ∷ rest) a ≡ audit_rows probe rest a))
        ⊎ ((passed_over t a ≡ false)
            × (probe t.tenant_id t.subscription_id ≡ none)
            × (audit_rows probe (t ∷ rest) a ≡ audit_rows probe rest (marked t a)))
        ⊎ ((b : Bool) × (passed_over t a ≡ false)
            × (probe t.tenant_id t.subscription_id ≡ some b)
            × (((leb 50 (note_probe (marked t a) t b).checked ≡ true)
                  × (audit_rows probe (t ∷ rest) a ≡ note_probe (marked t a) t b))
                ⊎ ((leb 50 (note_probe (marked t a) t b).checked ≡ false)
                    × (audit_rows probe (t ∷ rest) a
                        ≡ audit_rows probe rest (note_probe (marked t a) t b)))))
  unfolding audit_rows
  turn t rest a = elim (Bool-cases (passed_over t a)) [
    | inl over ↦ inl (over, rw (over, audit_rows) refl)
    | inr due ↦ inr (elim (Option-cases (probe t.tenant_id t.subscription_id)) [
      | inl failed ↦ inl (due, failed, rw (due, audit_rows) (rw failed refl))
      | inr (b, answer) ↦ inr (
        b,
        due,
        answer,
        elim (Bool-cases (leb 50 (note_probe (marked t a) t b).checked)) [
          | inl full ↦ inl (full, rw (due, audit_rows) (rw answer (rw full refl)))
          | inr more ↦ inr (more, rw (due, audit_rows) (rw answer (rw more refl)))
        ],
      )
    ])
  ]
