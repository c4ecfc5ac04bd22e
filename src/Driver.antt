-- ===== src/Driver.antt =====
-- What stands between the generator and the drivers: internal/driver.
pub mod Window
pub mod Fairness
pub mod CircuitBreaker
pub mod Backpressure
