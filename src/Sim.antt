-- ===== src/Sim.antt =====
-- The simulator's components (sim/*.py).
pub mod Types
pub mod Plant
pub mod ControlRef
pub mod Episode
pub mod Rng
pub mod Scenario
pub mod Headless
pub mod Freerun
pub mod Lockstep
