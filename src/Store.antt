-- ===== src/Store.antt =====
-- webapp/db.py: the SQLite store of reviews.
pub mod Row
pub mod Table
pub mod Reviews
pub mod Jobs
pub mod History
pub mod Refinement
pub mod Once
pub mod Keys
pub mod JobSlot
pub mod Claims
pub mod Permanent
pub mod Recovery
pub mod Updates
pub mod Samples
mod Tests
pub mod Lists
pub mod Stats
