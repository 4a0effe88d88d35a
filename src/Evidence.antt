-- ===== src/Evidence.antt =====
-- The evidence that the scripts judge (scripts/*.py).
pub mod Counters
pub mod Lockstep
pub mod Terminal
pub mod Histogram
pub mod Observation
pub mod Walk
pub mod Reconcile
pub mod Validate
pub mod ReconcileFreerun
