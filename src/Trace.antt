-- ===== src/Trace.antt =====
-- rca_agent/stack_trace.py: the frames of a stack trace in a ticket.
pub mod Frames
pub mod CrashSite
mod Tests
