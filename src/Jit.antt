-- ===== src/Jit.antt =====
-- src/runtime/jit: the x64 encoder of the compiler, and the types of its intermediate code.
pub mod X64
pub mod Types
