-- ===== src/Architecture.antt =====
-- src/verifier/architecture.c: effects and channels of the sealed regions of a graph.
pub mod Spec
pub mod Effects
pub mod Boundaries
pub mod Reports
pub mod Ancestors
pub mod Crossing
pub mod Verdict
mod Tests
