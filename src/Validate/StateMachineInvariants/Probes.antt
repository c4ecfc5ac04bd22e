-- ===== src/Validate/StateMachineInvariants/Probes.antt =====
-- The probe loop and the verdict of Check 10 (internal/validate/state_machine_invariants.go).
use aforo_nextgen_loadgen.Base.{
  ◌≤◌, ◌<◌, Bool, true, false, not, ◌||◌, ◌≡◌, refl, inl, inr, String, Option, List, [], ◌∷◌,
  length, length-append, leb, arith, Bool-cases, Option-cases,
}
use aforo_nextgen_loadgen.Lifecycle.TransitionLog.{TransitionRecord, ok, same_status}
use aforo_nextgen_loadgen.Validate.StateMachineInvariants.{
  Audit, was_seen, note_probe, audit_rows, no_audit,
}

-- No id twice.
abbrev pub Distinct : List String → Type 0
Distinct [] = Unit
Distinct (id ∷ rest) = (was_seen id rest ≡ false) × Distinct rest

-- The loop has read at most fifty subscriptions, each at most once, and reports one violation for each
-- read that found no audit row.
pub record IsBounded (a : Audit) : Type 0 where
  pub few : a.checked ≤ 50
  pub once : a.checked ≤ length a.seen
  pub distinct : Distinct a.seen
  pub less : a.missing ≤ a.checked
  pub reported : length a.found ≡ a.missing

-- The same with room for one more read.
record HasRoom (a : Audit) : Type 0 where
  room : a.checked < 50
  once : a.checked ≤ length a.seen
  distinct : Distinct a.seen
  less : a.missing ≤ a.checked
  reported : length a.found ≡ a.missing

note_probe-IsBounded :
    (a : Audit) (t : TransitionRecord) (recorded : Bool)
    → HasRoom a
    → was_seen t.subscription_id a.seen ≡ false
    → IsBounded (note_probe (record a { seen = t.subscription_id ∷ a.seen }) t recorded)
unfolding note_probe
note_probe-IsBounded a t true h new = record {
  few = omega (arith, h.room);
  once = omega (arith, h.once);
  distinct = (new, h.distinct);
  less = omega (arith, h.less);
  reported = h.reported;
}
note_probe-IsBounded a t false h new = record {
  few = omega (arith, h.room);
  once = omega (arith, h.once);
  distinct = (new, h.distinct);
  less = omega (arith, h.less);
  reported = omega (arith, h.reported, length-append {0} a.found (_ ∷ []));
}

audit_rows-IsBounded :
    (probe : String → String → Option Bool) (rows : List TransitionRecord) (a : Audit)
    → HasRoom a
    → IsBounded (audit_rows probe rows a)
unfolding audit_rows
audit_rows-IsBounded probe [] a h = record {
  few = omega (arith, h.room);
  once = h.once;
  distinct = h.distinct;
  less = h.less;
  reported = h.reported;
}
audit_rows-IsBounded probe (t ∷ rest) a h =
    elim (Bool-cases
      (not (same_status t.transition_status ok) || was_seen t.subscription_id a.seen)) [
        | inl over ↦ rw (over, audit_rows) (audit_rows-IsBounded probe rest a h)
        | inr due ↦
            rw (due, audit_rows)
              (elim (Option-cases (probe t.tenant_id t.subscription_id)) [
                | inl failed ↦ rw failed (
                    audit_rows-IsBounded probe rest _ (record {
                      room = h.room;
                      once = omega (arith, h.once);
                      distinct = (new due, h.distinct);
                      less = h.less;
                      reported = h.reported;
                    }))
                | inr (recorded, answered) ↦ rw answered (
                    let a2 =
                      note_probe (record a { seen = t.subscription_id ∷ a.seen }) t recorded in
                    let b = note_probe-IsBounded a t recorded h (new due) in
                    elim (Bool-cases (leb 50 a2.checked)) [
                      | inl full ↦ rw full b
                      | inr more ↦ rw more (
                          audit_rows-IsBounded probe rest a2 (record {
                            room = ground arith;
                            once = b.once;
                            distinct = b.distinct;
                            less = b.less;
                            reported = b.reported;
                          }))
                    ])
              ])
      ]
  where
    new :
        (not (same_status t.transition_status ok) || was_seen t.subscription_id a.seen) ≡ false
        → was_seen t.subscription_id a.seen ≡ false
    new e = ground arith

-- Whatever the log and the answers: Check 10 takes at most fifty answers, asks for no subscription
-- twice, and reports
-- exactly one violation for each read that shows no audit row.
pub probes-IsBounded :
    (probe : String → String → Option Bool) (rows : List TransitionRecord)
    → IsBounded (audit_rows probe rows no_audit)
probes-IsBounded probe rows = audit_rows-IsBounded probe rows no_audit (record {
  room = omega arith;
  once = omega arith;
  distinct = tt;
  less = omega arith;
  reported = refl;
})
