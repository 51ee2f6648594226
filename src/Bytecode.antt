-- ===== src/Bytecode.antt =====
-- src/bytecode: the opcode table, the constant pool, and the `.mgc` container.
pub mod Opcodes
pub mod Bytes
pub mod Pool
pub mod Image
pub mod Write
pub mod Read
pub mod RoundTrip
pub mod Tests
