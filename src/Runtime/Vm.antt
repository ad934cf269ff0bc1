-- ===== src/Runtime/Vm.antt =====
-- src/runtime/vm.c: the interpreter of one thread.
pub mod Outcome
pub mod Machine
pub mod Stack
pub mod Frames
pub mod Operators
pub mod Objects
pub mod Calls
pub mod Packages
pub mod Step
