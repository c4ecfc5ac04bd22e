-- ===== src/Wallet.antt =====
-- The wallet audit of a run: internal/wallet.
pub mod Audit
