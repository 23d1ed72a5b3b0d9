-- ===== src/Review.antt =====
-- webapp/app.py: the endpoints of the review dashboard and their background threads.
pub mod World
pub mod Decide
pub mod Withdraw
pub mod Background
pub mod Requests
pub mod Guards
pub mod Posting
pub mod Races
pub mod HumanRca
pub mod Samples
mod Tests
pub mod Run
pub mod RunEnds
mod RunTests
pub mod Jobs
