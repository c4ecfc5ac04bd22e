-- ===== src/Validate.antt =====
-- internal/validate: the checks of a finished run.
pub mod StateMachineInvariants
