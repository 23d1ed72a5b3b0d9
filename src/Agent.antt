-- ===== src/Agent.antt =====
-- rca_agent/agent.py: the agent's run and the verdict that is read from its output; and
-- rca_agent/investigation.py: the investigation without a model; rca_agent/daemon.py.
pub mod Parse
pub mod RoundTrip
pub mod Verdicts
pub mod Loop
pub mod Outcomes
pub mod Trace
pub mod Investigate
pub mod Run
pub mod Sure
mod Tests
pub mod Daemon
