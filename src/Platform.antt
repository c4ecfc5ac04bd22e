-- ===== src/Platform.antt =====
-- The client of the platform: internal/aforo.
pub mod Guard
