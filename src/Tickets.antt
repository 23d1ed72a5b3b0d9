-- ===== src/Tickets.antt =====
-- rca_agent/tickets.py: a Jira issue as the text that an investigation reads.
mod Tests
pub mod Issue
