-- ===== src/Bench/Cost.antt =====
-- miniserve/bench/costmodel.py.
pub mod Fraction
pub mod Config
pub mod Crossover
pub mod Bisection
pub mod Crossing
pub mod BandEdges
pub mod Emission
