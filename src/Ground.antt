-- ===== src/Ground.antt =====
-- The ground side (ground/link.py).
pub mod Receiver
pub mod Collect
pub mod Match
pub mod Audit
