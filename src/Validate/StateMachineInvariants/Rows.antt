-- ===== src/Validate/StateMachineInvariants/Rows.antt =====
-- What Check 10 says of one row (internal/validate/state_machine_invariants.go), given the state that
-- the row was fired from and the state that it expects.
use aforo_nextgen_loadgen.Base.{
  true, ◌≡◌, ◌⊎◌, inl, inr, String, none, some, arith, is_key, is_key_refl,
}
use aforo_nextgen_loadgen.Lifecycle.State.{SubscriptionState, other, wire}
use aforo_nextgen_loadgen.Lifecycle.StateMachine.{
  TransitionKind, retry_payment, can_fire_from, is_legal_transition,
}
use aforo_nextgen_loadgen.Lifecycle.Wire.{
  Strings, KeepsNames, IsKnown, scenario_state, scenario_state-wire,
}
use aforo_nextgen_loadgen.Lifecycle.TransitionLog.{TransitionRecord}
use aforo_nextgen_loadgen.Validate.StateMachineInvariants.{forbidden_step, row_reason}

-- Only the platform itself may be at fault: the row passes, or it is a payment retry after which the
-- platform reported a state that does not follow.
abbrev pub Blameless : Strings → TransitionRecord → Type 0
Blameless lib r =
    (row_reason lib r ≡ none)
    ⊎ ((r.transition ≡ retry_payment) × (row_reason lib r ≡ some forbidden_step))

pub can_fire_from-IsKnown :
    (kind : TransitionKind) (st : SubscriptionState) → can_fire_from kind st ≡ true → IsKnown st
unfolding can_fire_from
can_fire_from-IsKnown kind (other s) h = ground arith
can_fire_from-IsKnown kind SubscriptionState.created h = tt
can_fire_from-IsKnown kind _ h = tt

-- What the row expects: nothing, or a state that the table allows.
abbrev pub ExpectsLegal : SubscriptionState → String → Type 0
ExpectsLegal from expected =
    (expected ≡ "")
    ⊎ ((to : SubscriptionState) × IsKnown to
        × (expected ≡ wire to)
        × (is_legal_transition from to ≡ true))

module _ (lib : Strings) (keeps : KeepsNames lib) (r : TransitionRecord) (from : SubscriptionState)
    (sent : r.from_state ≡ wire from) (fires : can_fire_from r.transition from ≡ true) where
  read_from : can_fire_from r.transition (scenario_state lib r.from_state) ≡ true
  read_from =
      rw (sent, scenario_state-wire lib from keeps (can_fire_from-IsKnown r.transition from fires))
        fires

  -- A row that was fired legally is at worst a forbidden step.
  fired_reason : (row_reason lib r ≡ none) ⊎ (row_reason lib r ≡ some forbidden_step)
  unfolding row_reason
  fired_reason = ground (arith, read_from)

  pub retry-Blameless : r.transition ≡ retry_payment → Blameless lib r
  retry-Blameless retry = elim fired_reason [
    | inl clean ↦ inl clean
    | inr blamed ↦ inr (retry, blamed)
  ]

  pub expects-Blameless : ExpectsLegal from r.expected_post_state → Blameless lib r
  unfolding row_reason
  expects-Blameless (inl nothing) =
      let empty : is_key r.expected_post_state "" ≡ true = rw nothing (is_key_refl "") in
      inl (ground (arith, read_from, empty))
  expects-Blameless (inr (to, known, names, legal)) =
      let read_to : is_legal_transition (scenario_state lib r.from_state)
            (scenario_state lib r.expected_post_state)
          ≡ true =
        rw
          (sent, scenario_state-wire lib from keeps (can_fire_from-IsKnown r.transition from fires))
          (rw (names, scenario_state-wire lib to keeps known) legal) in
      inl (ground (arith, read_from, read_to))
