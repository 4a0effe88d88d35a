-- ===== src/Sweep.antt =====
-- The sweep of scripts/sweep.py: which runs it plans, and what it asks of the machine.
pub mod Levels
pub mod Plan
pub mod Peer
pub mod Audit
