-- ===== src/Validate/StateMachineInvariants/Agent/Fires.antt =====
-- Each transition module of internal/lifecycle keeps a clean world clean, fired on a subject whose state
-- the agent's filter lets through.
use aforo_nextgen_loadgen.Base.{
  true, ap, ◌∙◌, not, ◌&&◌, ◌≡◌, refl, inl, inr, String, Option, none, some, is_key, Option-cases,
  Bool-cases,
}
use aforo_nextgen_loadgen.Lifecycle.State.{active, paused, cancelled, wire}
use aforo_nextgen_loadgen.Lifecycle.StateMachine.{
  TransitionKind, upgrade, downgrade, pause, resume, trial_conversion, trial_cancel, migrate,
  retry_payment, can_fire_from, expected_post_state, is_legal_transition,
}
use aforo_nextgen_loadgen.Lifecycle.Wire.{KeepsNames}
use aforo_nextgen_loadgen.Lifecycle.Picker.{Subject, pick_migrate_target}
use aforo_nextgen_loadgen.Lifecycle.TransitionLog.{TransitionRecord}
use aforo_nextgen_loadgen.Lifecycle.ResumeScheduler.Counter.{schedule-Balanced}
use aforo_nextgen_loadgen.Lifecycle.World.{Env, Reply, World, wire_or_empty, with_picker}
use aforo_nextgen_loadgen.Lifecycle.Fire.{
  change_offering, fire_upgrade, fire_downgrade, check_stable_id, move_offering, fire_migrate,
  fire_trial_conversion, fire_trial_cancel, hold, fire_pause, lift, fire_resume, fire_retry_payment,
}
use aforo_nextgen_loadgen.Validate.StateMachineInvariants.Rows.{
  ExpectsLegal, can_fire_from-IsKnown, retry-Blameless,
}
use aforo_nextgen_loadgen.Validate.StateMachineInvariants.Agent.Frame.{
  CleanWorld, Ensures, IsClean, append_or_fail-Ensures, append_anyway-Clean, append_last-Ensures,
  with_picker-Clean, adopt_status-Clean, attempt-Ensures, land-Ensures, row-IsClean,
  plain_row-IsClean, landed_row-IsClean, log_skip-Ensures, repick,
}

module _ {S : Type 0} (env : Env S) (keeps : KeepsNames env.strings) where
  -- UPGRADE and DOWNGRADE expect the state that they find.
  change_offering-Ensures :
      (w : World S) (s : Subject) (kind : TransitionKind) (intent target : String) (reply : Reply)
      → can_fire_from kind s.state ≡ true
      → expected_post_state kind s.state ≡ some s.state
      → CleanWorld env w
      → Ensures env (change_offering env w s kind intent target reply)
  unfolding change_offering wire_or_empty
  change_offering-Ensures w s kind intent target reply fires stays c =
      attempt-Ensures env w _ _ (env.wrap intent) reply _ c (plain _ refl refl refl) plain λ w1 c1.
        land-Ensures env w1 _ _ _ c1
          (λ r same sent expects.
            landed_row-IsClean env keeps s.state kind fires s.state
              (can_fire_from-IsKnown kind s.state fires) stays r same sent
              (expects ∙ ap wire_or_empty stays))
          (λ w2 c2. adopt_status-Clean env w2 s reply c2)
    where
      plain :
          (r : TransitionRecord)
          → r.transition ≡ kind
          → r.from_state ≡ wire s.state
          → r.expected_post_state ≡ ""
          → IsClean env r
      plain = plain_row-IsClean env keeps s.state kind fires

  pub fire_upgrade-Ensures :
      (w : World S) (s : Subject) (reply : Reply)
      → can_fire_from upgrade s.state ≡ true
      → CleanWorld env w
      → Ensures env (fire_upgrade env w s reply)
  unfolding fire_upgrade expected_post_state
  fire_upgrade-Ensures w s reply fires c =
      let c1 = repick env w (pick_migrate_target env.intn w.picker s).1 c in
      elim (Option-cases (pick_migrate_target env.intn w.picker s).0) [
        | inl alone ↦ rw (alone, fire_upgrade) (log_skip-Ensures env keeps s upgrade fires _ _ c1)
        | inr (t, chosen) ↦
            rw (chosen, fire_upgrade) (change_offering-Ensures _ s upgrade _ t reply fires refl c1)
      ]

  pub fire_downgrade-Ensures :
      (w : World S) (s : Subject) (reply : Reply)
      → can_fire_from downgrade s.state ≡ true
      → CleanWorld env w
      → Ensures env (fire_downgrade env w s reply)
  unfolding fire_downgrade expected_post_state
  fire_downgrade-Ensures w s reply fires c =
      let c1 = repick env w (pick_migrate_target env.intn w.picker s).1 c in
      elim (Option-cases (pick_migrate_target env.intn w.picker s).0) [
        | inl alone ↦
            rw (alone, fire_downgrade) (log_skip-Ensures env keeps s downgrade fires _ _ c1)
        | inr (t, chosen) ↦
            rw (chosen, fire_downgrade)
              (change_offering-Ensures _ s downgrade _ t reply fires refl c1)
      ]

  check_stable_id-Clean :
      (w : World S) (s : Subject) (target : String) (reply : Reply)
      → can_fire_from migrate s.state ≡ true
      → CleanWorld env w
      → CleanWorld env (check_stable_id env w s target reply)
  unfolding check_stable_id
  check_stable_id-Clean w s target reply fires c =
      elim (Bool-cases (
        not (is_key reply.source_id "")
        && not (is_key reply.target_id "")
        && not (is_key reply.source_id reply.target_id))) [
          | inl differ ↦ rw differ (
              append_anyway-Clean env w _ c
                (plain_row-IsClean env keeps s.state migrate fires _ refl refl refl))
          | inr fine ↦ rw fine c
        ]

  move_offering-Ensures :
      (w : World S) (s : Subject) (target : String) (reply : Reply)
      → can_fire_from migrate s.state ≡ true
      → CleanWorld env w
      → Ensures env (move_offering env w s target reply)
  unfolding move_offering wire_or_empty expected_post_state
  move_offering-Ensures w s target reply fires c =
      let plain = plain_row-IsClean env keeps s.state migrate fires in
      attempt-Ensures env w _ _ _ reply _ c (plain _ refl refl refl) plain λ w1 c1.
        land-Ensures env w1 _ _ _ c1
          (landed_row-IsClean env keeps s.state migrate fires s.state
            (can_fire_from-IsKnown migrate s.state fires) refl)
          (λ w2 c2. check_stable_id-Clean w2 s target reply fires c2)

  pub fire_migrate-Ensures :
      (w : World S) (s : Subject) (reply : Reply)
      → can_fire_from migrate s.state ≡ true
      → CleanWorld env w
      → Ensures env (fire_migrate env w s reply)
  unfolding fire_migrate
  fire_migrate-Ensures w s reply fires c =
      let c1 = repick env w (pick_migrate_target env.intn w.picker s).1 c in
      elim (Option-cases (pick_migrate_target env.intn w.picker s).0) [
        | inl alone ↦ rw (alone, fire_migrate) (log_skip-Ensures env keeps s migrate fires _ _ c1)
        | inr (t, chosen) ↦ rw (chosen, fire_migrate) (move_offering-Ensures _ s t reply fires c1)
      ]

  pub fire_trial_conversion-Ensures :
      (w : World S) (s : Subject) (reply : Reply)
      → can_fire_from trial_conversion s.state ≡ true
      → CleanWorld env w
      → Ensures env (fire_trial_conversion env w s reply)
  unfolding fire_trial_conversion expected_post_state
  fire_trial_conversion-Ensures w s reply fires c =
      let plain = plain_row-IsClean env keeps s.state trial_conversion fires in
      attempt-Ensures env w _ _ _ reply _ c (plain _ refl refl refl) plain λ w1 c1.
        land-Ensures env w1 _ _ _ c1
          (landed_row-IsClean env keeps s.state trial_conversion fires active tt refl)
          (λ w2 c2. with_picker-Clean env w2 _ c2)

  pub fire_trial_cancel-Ensures :
      (w : World S) (s : Subject) (reply : Reply)
      → can_fire_from trial_cancel s.state ≡ true
      → CleanWorld env w
      → Ensures env (fire_trial_cancel env w s reply)
  unfolding fire_trial_cancel expected_post_state
  fire_trial_cancel-Ensures w s reply fires c =
      let plain = plain_row-IsClean env keeps s.state trial_cancel fires in
      attempt-Ensures env w _ _ _ reply _ c (plain _ refl refl refl) plain λ w1 c1.
        land-Ensures env w1 _ _ _ c1
          (landed_row-IsClean env keeps s.state trial_cancel fires cancelled tt refl)
          (λ w2 c2. with_picker-Clean env w2 _ c2)

  hold-Ensures : (w : World S) (s : Subject) → CleanWorld env w → Ensures env (hold w s)
  unfolding hold with_picker
  hold-Ensures w s c =
      let (r, scheduled, balanced) = schedule-Balanced w.resumes s.subscription_id s c.resumes in
      rw (scheduled, hold)
        (record { rows = (with_picker-Clean env w (λ p. p) c).rows; resumes = balanced })

  pub fire_pause-Ensures :
      (w : World S) (s : Subject) (reply : Reply)
      → can_fire_from pause s.state ≡ true
      → CleanWorld env w
      → Ensures env (fire_pause env w s reply)
  unfolding fire_pause expected_post_state
  fire_pause-Ensures w s reply fires c =
      let plain = plain_row-IsClean env keeps s.state pause fires in
      attempt-Ensures env w _ _ _ reply _ c (plain _ refl refl refl) plain λ w1 c1.
        append_or_fail-Ensures env w1 _ (λ m. m) _ c1
          (landed_row-IsClean env keeps s.state pause fires paused tt refl _ refl refl refl)
          (λ w2 c2. hold-Ensures w2 s c2)

  resume_row :
      (r : TransitionRecord)
      → r.transition ≡ resume
      → r.from_state ≡ wire paused
      → ExpectsLegal paused r.expected_post_state
      → IsClean env r
  unfolding can_fire_from
  resume_row = row-IsClean env keeps paused resume refl

  lift-Ensures :
      (w : World S) (s : Subject) (called : TransitionRecord) (e : Option String)
      → called.transition ≡ resume
      → called.from_state ≡ wire paused
      → called.expected_post_state ≡ ""
      → CleanWorld env w
      → Ensures env (lift env w s called e)
  unfolding lift is_legal_transition
  lift-Ensures w s called (some e) same sent empty c =
      with_picker-Clean env _ _ (append_anyway-Clean env w _ c (resume_row _ same sent (inl empty)))
  lift-Ensures w s called none same sent empty c =
      with_picker-Clean env _ _
        (append_anyway-Clean env w _ c (resume_row _ same sent (inr (active, tt, refl, refl))))

  pub fire_resume-Ensures :
      (w : World S) (s : Subject) (reply : Reply)
      → CleanWorld env w
      → Ensures env (fire_resume env w s reply)
  unfolding fire_resume
  fire_resume-Ensures w s reply c =
      append_or_fail-Ensures env w _ _ _ c (resume_row _ refl refl (inl refl))
        (λ w1 c1. lift-Ensures w1 s _ reply.error refl refl refl c1)

  pub fire_retry_payment-Ensures :
      (w : World S) (s : Subject) (reply : Reply)
      → can_fire_from retry_payment s.state ≡ true
      → CleanWorld env w
      → Ensures env (fire_retry_payment env w s reply)
  unfolding fire_retry_payment
  fire_retry_payment-Ensures w s reply fires c =
      attempt-Ensures env w _ _ _ reply _ c
        (plain_row-IsClean env keeps s.state retry_payment fires _ refl refl refl)
        (plain_row-IsClean env keeps s.state retry_payment fires)
        λ w1 c1.
          append_last-Ensures env _ _ (adopt_status-Clean env w1 s reply c1)
            (retry-Blameless env.strings keeps _ s.state refl fires refl)
