-- ===== src/Gitlab.antt =====
-- rca_agent/gitlab_client.py: the read-only client of a GitLab server.
pub mod Server
pub mod Commits
pub mod Reads
pub mod Pages
pub mod Paging
pub mod Lines
mod Tests
pub mod Fixtures
