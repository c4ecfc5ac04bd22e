-- ===== src/Coord.antt =====
-- The division of a run between workers: internal/coord.
pub mod Partition
pub mod SplitTps
pub mod Poll
pub mod Reports
pub mod Dispatch
