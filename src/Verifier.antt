-- ===== src/Verifier.antt =====
-- src/verifier/verifier.c: the linear scan that accepts or rejects the code of each function.
-- Operand checks are in `Operands`, the bookkeeping of stack heights in `Heights`.
pub mod Report
pub mod Operands
pub mod Heights
pub mod Scan
pub mod Soundness
pub mod Acceptance
pub mod Verdict
mod Tests
