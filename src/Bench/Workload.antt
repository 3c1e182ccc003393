-- ===== src/Bench/Workload.antt =====
-- miniserve/bench/workload.py: a schedule of requests, from a source of random draws.
pub mod Ratio
pub mod Generate
pub mod Profile
pub mod Schedule
pub mod Windows
