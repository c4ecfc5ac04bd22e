-- ===== src/Examples.antt =====
-- Runs of the models on concrete inputs, and the theorems at inputs that meet their hypotheses.
mod Fractions
mod Extended
mod Billing
mod Agent
mod Logs
mod Driver
mod Coord
mod Platform
mod Payments
mod Wallet
mod Fairness
mod Reports
mod Dispatch
pub mod Demo
mod Scenarios
