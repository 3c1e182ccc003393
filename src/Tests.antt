-- ===== src/Tests.antt =====
-- Runs of the model, and the theorems at concrete inputs.
mod Fixture
mod Cache
mod Scheduling
mod Engines
mod Passes
mod Http
mod Workloads
