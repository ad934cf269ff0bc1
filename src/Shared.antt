-- ===== src/Shared.antt =====
-- src/shared: what the compiler and the runtime have in common.
pub mod Bytecode
pub mod U8Set
pub mod U64HashTable
pub mod U64Set
pub mod Values
