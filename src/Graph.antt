-- ===== src/Graph.antt =====
-- rca_agent/graph.py: the call graph of a repository, and the questions that the agent asks of it.
pub mod Model
pub mod Reach
pub mod BlastRadius
mod Tests
pub mod Edges
pub mod Build
pub mod Search
