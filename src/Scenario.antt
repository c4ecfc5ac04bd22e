-- ===== src/Scenario.antt =====
-- The language of scenarios: internal/scenario.
pub mod Rates
pub mod Sections
pub mod Report
pub mod Names
pub mod Bands
pub mod Weights
pub mod Models
pub mod Archetypes
pub mod RateCards
pub mod Checks
pub mod Services
pub mod Validator
pub mod Defaults
pub mod Estimate
