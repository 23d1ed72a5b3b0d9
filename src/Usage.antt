-- ===== src/Usage.antt =====
-- rca_agent/usage.py: the tokens and the cost of a run.
pub mod Meter
pub mod Counted
mod Tests
