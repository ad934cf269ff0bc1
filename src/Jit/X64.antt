-- ===== src/Jit/X64.antt =====
-- src/runtime/jit/x64/opcodes.c: the functions that append machine code to a buffer, in modules by
-- what they encode, and a decoder by which they are judged.
pub mod Operands
pub mod Emit
pub mod Moves
pub mod Arithmetic
pub mod Immediates
pub mod Control
pub mod Decoder
pub mod Sequences
pub mod Fields
pub mod Registers
pub mod Singles
pub mod Jumps
pub mod Memory
pub mod Constants
pub mod AluConstants
