-- ===== src/Campaign.antt =====
-- The campaign of scripts/run_campaign.py: its seeds and its manifest.
pub mod Seeds
pub mod Manifest
