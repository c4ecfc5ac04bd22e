-- ===== src/Lifecycle/StateMachine/Legality.antt =====
-- The agent's rules and the platform's table side by side (internal/lifecycle/statemachine.go).
use aforo_nextgen_loadgen.Base.{true, false, ◌≡◌, some, List, [], ◌∷◌, arith, All, subst}
use aforo_nextgen_loadgen.Lifecycle.State.{SubscriptionState, same_eq}
use aforo_nextgen_loadgen.Lifecycle.StateMachine.{
  TransitionKind, can_fire_from, expected_post_state, is_legal_transition, is_terminal,
}

-- An attempt that the agent's filter lets through, and that lands where the agent expects, is a step
-- that the platform's state machine allows.
pub can_fire_from-is_legal :
    (kind : TransitionKind) (from to : SubscriptionState)
    → can_fire_from kind from ≡ true
    → expected_post_state kind from ≡ some to
    → is_legal_transition from to ≡ true
unfolding can_fire_from expected_post_state is_legal_transition
can_fire_from-is_legal kind from to h e = ground arith

-- A subscription's states in the order in which it took them, each a legal step from the one before.
abbrev pub IsLegalHistory : SubscriptionState → List SubscriptionState → Type 0
IsLegalHistory from [] = Unit
IsLegalHistory from (to ∷ rest) = (is_legal_transition from to ≡ true) × IsLegalHistory to rest

legal_from_terminal :
    (from to : SubscriptionState)
    → is_terminal from ≡ true
    → is_legal_transition from to ≡ true
    → to ≡ from
unfolding is_legal_transition is_terminal
legal_from_terminal from to t h = ground (arith, same_eq from to)

-- Nothing leaves CANCELLED or EXPIRED: a legal history that starts there stays at its first state.
pub terminal_history :
    (from : SubscriptionState) (states : List SubscriptionState)
    → is_terminal from ≡ true
    → IsLegalHistory from states
    → All (λ s. s ≡ from) states
terminal_history from [] t h = tt
terminal_history from (to ∷ rest) t h =
    let e = legal_from_terminal from to t h.0 in
    (e, terminal_history from rest t (subst (λ s. IsLegalHistory s rest) e h.1))

-- No terminal state is a state from which the agent attempts anything.
pub can_fire_from-not_terminal :
    (kind : TransitionKind) (from : SubscriptionState)
    → is_terminal from ≡ true
    → can_fire_from kind from ≡ false
unfolding can_fire_from is_terminal
can_fire_from-not_terminal kind from t = ground arith
