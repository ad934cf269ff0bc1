-- ===== src/Runtime.antt =====
-- src/runtime: what the virtual machine records of the values it meets.
pub mod Profile
pub mod Vm
