-- ===== src/Compiler.antt =====
-- src/compiler: the scanner, and the chunks that the compiler writes.
pub mod Scanner
pub mod Chunk
pub mod Parser
