-- ===== src/Tests.antt =====
-- Runs on concrete inputs, and the theorems at concrete inputs.
mod EpisodeRuns
mod WireRuns
mod GroundRuns
mod HeadlessRuns
mod FreerunRuns
mod EvidenceRuns
mod RecordingRuns
mod ScenarioRuns
mod AuditRuns
mod ReconcileRuns
mod SweepRuns
mod MeasurementRuns
mod CampaignRuns
