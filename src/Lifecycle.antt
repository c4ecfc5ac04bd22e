-- ===== src/Lifecycle.antt =====
-- internal/lifecycle: the agent that drives subscriptions through the platform's state machine.
pub mod State
pub mod StateMachine
pub mod Wire
pub mod Picker
pub mod TransitionLog
pub mod ResumeScheduler
pub mod World
pub mod Fire
pub mod DunningWalker
pub mod Agent
