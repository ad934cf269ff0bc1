-- ===== src/Compiler/Parser.antt =====
-- src/compiler/bytecode/bytecode_compiler.c: one pass from tokens to the code of a function.
pub mod State
pub mod Tokens
pub mod Emit
pub mod Scopes
pub mod Monitors
pub mod Rules
pub mod Variables
pub mod Expressions
pub mod Statements
pub mod Declarations
pub mod Grammar
pub mod Control
