-- ===== src/Payments.antt =====
-- The payments of a run: internal/payments.
pub mod Dunning
