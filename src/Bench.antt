-- ===== src/Bench.antt =====
-- miniserve/bench.
pub mod Static
pub mod Fake
pub mod Run
pub mod Cost
pub mod Workload
pub mod Calibrate
mod Tests
