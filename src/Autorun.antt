-- ===== src/Autorun.antt =====
-- webapp/autorun.py: the poller that starts investigations of new tickets by itself.
pub mod Settings
pub mod Valid
pub mod Rules
pub mod Tick
pub mod Counts
pub mod Caps
mod Tests
pub mod Query
pub mod Eligible
