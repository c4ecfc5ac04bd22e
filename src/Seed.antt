-- ===== src/Seed.antt =====
-- How a manifest is filled: internal/seed.
pub mod Distribution
pub mod Discounts
pub mod RatePlans
