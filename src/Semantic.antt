-- ===== src/Semantic.antt =====
-- src/semantic: the lexical scopes.
pub mod Scope
pub mod Blocks
pub mod Tests
