-- ===== src/Vm.antt =====
-- The virtual machine of src/vm: its state, the instructions and the loop that runs them.
pub mod State
pub mod Platform
pub mod Op
pub mod Values
pub mod Collections
pub mod Branches
pub mod Closures
pub mod Intrinsics
pub mod Concurrency
pub mod Control
pub mod Run
pub mod Step
pub mod Bounded
pub mod Reach
pub mod Verified
pub mod Handlers
pub mod Tests
