-- ===== src/Runtime.antt =====
-- src/runtime: the objects of the virtual machine, the garbage collector and the channels.
pub mod Object
pub mod Objects
pub mod Gc
pub mod Channel
mod Tests
