-- ===== src/Fix.antt =====
-- rca_agent/fix_agent.py and rca_agent/fix_mr.py: a suggested fix, its edits applied for the review,
-- and the merge requests that are raised from it.
pub mod Edits
pub mod Review
pub mod Build
pub mod Answer
pub mod Suggest
pub mod Prompt
pub mod Fresh
pub mod Raise
pub mod Push
pub mod Endpoint
pub mod Careful
pub mod Requests
pub mod Samples
mod Tests
pub mod Splice
