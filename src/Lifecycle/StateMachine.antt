-- ===== src/Lifecycle/StateMachine.antt =====
-- internal/lifecycle/statemachine.go: which transitions the agent attempts from a state, where each
-- should land, and which steps the platform's state machine allows.
use aforo_nextgen_loadgen.Base.{
  Bool, true, false, ◌||◌, String, Option, none, some, List, [], ◌∷◌, if◌then◌else◌,
}
use aforo_nextgen_loadgen.Lifecycle.State.{
  SubscriptionState, created, trialing, active, past_due, paused, expiring_soon, expired, cancelled,
  suspended, other, same,
}
pub mod Legality

-- A kind that is none of the ten constants is `unknown`: the validator reads kinds from a file.
pub data TransitionKind : Type 0 where
  upgrade downgrade pause resume : TransitionKind
  trial_conversion trial_cancel migrate : TransitionKind
  retry_payment dunning_step dunning_escalate : TransitionKind
  unknown : String → TransitionKind

unfoldable pub is_terminal : SubscriptionState → Bool
is_terminal cancelled = true
is_terminal expired = true
is_terminal _ = false

-- The `switch` of `CanFireFrom`.
can_fire_rule : TransitionKind → SubscriptionState → Bool
can_fire_rule upgrade from =
    same from active || same from trialing || same from past_due || same from expiring_soon
can_fire_rule downgrade from =
    same from active || same from trialing || same from past_due || same from expiring_soon
can_fire_rule pause from = same from active || same from trialing
can_fire_rule resume from = same from paused
can_fire_rule trial_conversion from = same from trialing
can_fire_rule trial_cancel from = same from trialing
can_fire_rule migrate from =
    same from active
    || same from trialing
    || same from paused
    || same from expiring_soon
    || same from past_due
can_fire_rule retry_payment from = same from past_due || same from suspended
can_fire_rule dunning_step from = same from past_due || same from suspended
can_fire_rule dunning_escalate from = same from past_due || same from suspended
can_fire_rule (unknown k) from = false

unfoldable pub can_fire_from : TransitionKind → SubscriptionState → Bool
unfolding is_terminal can_fire_rule same
can_fire_from kind from = if is_terminal from then false else can_fire_rule kind from

-- The empty string, "depends on context", is `none`.
unfoldable pub expected_post_state : TransitionKind → SubscriptionState → Option SubscriptionState
expected_post_state upgrade prior = some prior
expected_post_state downgrade prior = some prior
expected_post_state pause prior = some paused
expected_post_state resume prior = some active
expected_post_state trial_conversion prior = some active
expected_post_state trial_cancel prior = some cancelled
expected_post_state migrate prior = some prior
expected_post_state retry_payment prior = some active
expected_post_state dunning_escalate prior = some suspended
expected_post_state dunning_step prior = none
expected_post_state (unknown k) prior = none

-- The table `legalNextStates`; a state that is no key of the map has no successor.
unfoldable pub legal_next_states : SubscriptionState → List SubscriptionState
legal_next_states created = trialing ∷ active ∷ cancelled ∷ []
legal_next_states trialing = active ∷ cancelled ∷ paused ∷ []
legal_next_states active = past_due ∷ paused ∷ expiring_soon ∷ expired ∷ cancelled ∷ suspended ∷ []
legal_next_states past_due = active ∷ suspended ∷ cancelled ∷ expired ∷ []
legal_next_states paused = active ∷ cancelled ∷ expired ∷ []
legal_next_states expiring_soon = active ∷ expired ∷ cancelled ∷ []
legal_next_states suspended = active ∷ cancelled ∷ expired ∷ []
legal_next_states _ = []

-- The loop over `allowed`.
contains : List SubscriptionState → SubscriptionState → Bool
contains [] to = false
contains (s ∷ rest) to = same s to || contains rest to

unfoldable pub is_legal_transition : SubscriptionState → SubscriptionState → Bool
unfolding is_terminal same contains legal_next_states
is_legal_transition from to =
    if same from to
    then true
    else if is_terminal from
    then false
    else contains (legal_next_states from) to
