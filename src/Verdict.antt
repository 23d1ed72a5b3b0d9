-- ===== src/Verdict.antt =====
-- rca_agent/schema.py and rca_agent/verify.py: the verdict of an investigation, what is shown of it,
-- and the verification of its claims.
pub mod Render
pub mod Schema
pub mod Verify
pub mod Trust
pub mod Labels
pub mod Samples
mod Tests
pub mod Adf
pub mod Asked
pub mod Score
