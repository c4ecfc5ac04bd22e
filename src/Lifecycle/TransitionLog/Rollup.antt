-- ===== src/Lifecycle/TransitionLog/Rollup.antt =====
-- The roll-up of the transition log against its rows (internal/lifecycle/transition_log.go).
use aforo_nextgen_loadgen.Base.{
  ℕ, suc, ◌≤◌, ◌<◌, Bool, true, ◌≡◌, refl, ap, String, Option, none, some, List, [], ◌∷◌, ◌++◌,
  length, length-append, is_key_eq, if◌then◌else◌, arith, keep,
}
use aforo_nextgen_loadgen.Lifecycle.StateMachine.{TransitionKind, upgrade, unknown}
use aforo_nextgen_loadgen.Lifecycle.TransitionLog.{
  TransitionStatus, TransitionRecord, TransitionLog, same_status, same_kind, new_log, add_reason,
  wrote, append_to, append,
}

-- How many rows pass a test.
abbrev pub count_rows : (TransitionRecord → Bool) → List TransitionRecord → ℕ
count_rows p rows = length (keep p rows)

-- The counters that LogSnapshot reports are the numbers of rows on disk, and no more than ten reasons
-- are kept for a kind.
pub record Agrees (l : TransitionLog) : Type 0 where
  pub total : l.count ≡ length l.rows
  pub kinds : (k : TransitionKind) → l.by_kind k ≡ count_rows (λ r. same_kind k r.transition) l.rows
  pub statuses :
      (s : TransitionStatus)
      → l.by_status s ≡ count_rows (λ r. same_status s r.transition_status) l.rows
  pub capped : (k : TransitionKind) → length (l.fail_reasons k) ≤ 10

count_rows_snoc :
    (p : TransitionRecord → Bool) (rows : List TransitionRecord) (r : TransitionRecord)
    → count_rows p (rows ++ r ∷ []) ≡ (if p r then suc (count_rows p rows) else count_rows p rows)
count_rows_snoc p [] r = ground arith
count_rows_snoc p (x ∷ rows) r = ground (arith, count_rows_snoc p rows r)

same_kind_eq : (a b : TransitionKind) → same_kind a b ≡ true → a ≡ b
unfolding same_kind
same_kind_eq (unknown a) (unknown b) h = ap unknown (is_key_eq a b h)
same_kind_eq upgrade b h = ground arith
same_kind_eq a b h = ground arith

append_one-capped : (xs : List String) (e : String) → length xs < 10 → length (xs ++ e ∷ []) ≤ 10
append_one-capped xs e h = omega (arith, length-append {0} xs (e ∷ []))

add_reason-capped :
    (rec : TransitionRecord) (reasons : TransitionKind → List String) (k : TransitionKind)
    → length (reasons k) ≤ 10
    → length (add_reason rec reasons k) ≤ 10
unfolding add_reason
add_reason-capped rec reasons k h =
    ground (arith, same_kind_eq k rec.transition, append_one-capped (reasons k) rec.error)

wrote-Agrees :
    (l : TransitionLog) (faults : List (Option String)) (rec : TransitionRecord)
    → Agrees l
    → Agrees (wrote l faults rec)
unfolding wrote
wrote-Agrees l faults rec a = record {
  total = omega (arith, a.total, length-append {0} l.rows (rec ∷ []));
  kinds =
      λ k. ground (arith, a.kinds k, count_rows_snoc (λ r. same_kind k r.transition) l.rows rec);
  statuses = λ s.
      ground
        (arith, a.statuses s, count_rows_snoc (λ r. same_status s r.transition_status) l.rows rec);
  capped = λ k. add_reason-capped rec l.fail_reasons k (a.capped k);
}

append_to-Agrees :
    (l : TransitionLog) (faults : List (Option String)) (rec : TransitionRecord)
    → Agrees l
    → Agrees (append_to l faults rec).0
unfolding append_to
append_to-Agrees l [] rec a = wrote-Agrees l [] rec a
append_to-Agrees l (none ∷ faults) rec a = wrote-Agrees l faults rec a
append_to-Agrees l (some e ∷ faults) rec a = record {
  total = a.total;
  kinds = a.kinds;
  statuses = a.statuses;
  capped = a.capped;
}

-- The loop of a caller that appends row after row and drops the errors.
pub append_all : TransitionLog → List TransitionRecord → TransitionLog
append_all l [] = l
append_all l (r ∷ rest) = append_all (append l r).0 rest

append_all-Agrees :
    (l : TransitionLog) (rs : List TransitionRecord) → Agrees l → Agrees (append_all l rs)
unfolding append_all append
append_all-Agrees l [] a = a
append_all-Agrees l (r ∷ rest) a =
    append_all-Agrees (append_to l l.faults r).0 rest (append_to-Agrees l l.faults r a)

-- Whatever is appended to a fresh log, and whichever writes fail, the counters by kind and by status
-- are those of the rows that were written, and no kind keeps more than ten fail reasons.
pub rollup-Agrees :
    (faults : List (Option String)) (rs : List TransitionRecord)
    → Agrees (append_all (new_log faults) rs)
unfolding new_log
rollup-Agrees faults rs =
    append_all-Agrees (new_log faults) rs
      (record { total = refl; kinds = λ k. refl; statuses = λ s. refl; capped = λ k. omega arith })
