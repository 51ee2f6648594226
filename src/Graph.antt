-- ===== src/Graph.antt =====
-- src/semantic_graph/semantic_graph.c: building and validating the program graph.
pub mod Types
pub mod Build
pub mod Validate
pub mod Forest
pub mod Indexed
pub mod Stages
pub mod Accept
pub mod Growth
pub mod Changes
pub mod Steps
pub mod History
mod Tests
