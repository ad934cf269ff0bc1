-- ===== src/Lib.antt =====
-- lox-vm: a virtual machine for the language Lox, with a compiler to bytecode, a just-in-time
-- compiler to x64 machine code and two garbage collectors.
--
-- A source text becomes tokens (src/compiler/bytecode/scanner.c), from which the compiler writes
-- bytecode into chunks (src/compiler/bytecode/chunk). The virtual machine and the just-in-time compiler
-- read a chunk instruction by instruction through an iterator, by the table of src/shared/bytecode. The
-- just-in-time compiler infers types (src/runtime/jit/advanced/lox_ir_type.c) and in the end emits
-- machine code (src/runtime/jit/x64/opcodes.c).
--
-- Prelude passes on the names of the libraries, and has lists and Boolean tests over the native
-- numbers, the values of C's `int` (Prelude/Int), and the digits of the bitwise
-- operations (Prelude/Bits, Prelude/Binary).
--
-- Compiler/Scanner models src/compiler/bytecode/scanner.c: one function for each of the source. A
-- `char *` into the source is the text from it on, and the terminator the end of the text. A loop has
-- one round more than there are bytes left, and each round but the last takes a byte at least.
--
-- Compiler/Chunk models src/compiler/bytecode/chunk/chunk.c, with the memory of the code and the size
-- of that of the lines; Compiler/Chunk/Iterator models chunk_iterator.c, and Compiler/Chunk/Walk the
-- loop by which src/compiler/bytecode/bytecode_list.c reads a chunk, whose rounds are bounded by the
-- number of instructions. The shifts of read_u64_chunk_iterator are undefined and have no model.
--
-- Compiler/Parser models src/compiler/bytecode/bytecode_compiler.c: State the compiler and its error
-- paths, Tokens, Emit, Scopes and Monitors what all handlers use, Rules the table of precedences, Variables
-- and Expressions the handlers that parse_precedence calls, Statements and Declarations the others, up to
-- compile_bytecode. The tokens that the scanner has still to give are a list. A call of parse_precedence,
-- statement or declaration costs a unit of fuel, and so does a round of a loop; depth_of and statement_depth
-- bound what a tree needs. Doubles, the pool of strings, the words of objects, the keys of tries and the
-- packages are the record Services. Compiler/Parser/Grammar has trees of expressions with their tokens and
-- the code that they stand for, written without the parser, and Compiler/Parser/Control those of statements.
--
-- Shared/Bytecode models src/shared/bytecode: the enumeration, the lengths, the table, the predicates.
-- Shared/U8Set models src/shared/utils/collections/u8_set.c, with words of 64 bits.
--
-- Shared/U64HashTable and Shared/U64Set model u64_hash_table.c and u64_set.c of the same folder. A search
-- goes round as many entries as there are, a loop over a set has as many rounds as it has members.
--
-- Jit/X64 models src/runtime/jit/x64/opcodes.c, operands.h and registers.h. The buffer is the list of
-- its bytes; an encoder appends to it and returns an index, or nothing where the code panics. What an
-- encoder means is judged by Jit/X64/Decoder, a decoder of the instructions that the code uses,
-- written after the encoding of the processor and not after the code.
--
-- Jit/Types models the functions of src/runtime/jit/advanced/lox_ir_type.c on the tags of types.
--
-- Runtime/Profile models the type profiles of src/runtime/profiler. The class of a value, which depends
-- on the heap, is an argument. The counters are of 32 bits and wrap around.
--
-- Shared/Values models the boxing of values in src/shared/types/types.h, with NAN_BOXING, where a number is
-- a word that is read as a double, and their classes in types.c.
--
-- Runtime/Vm models src/runtime/vm.c and addition.c: the interpreter of one thread. Outcome has the result
-- of a handler, a panic, or a fault where C leaves the behaviour undefined; Machine the state. The frames
-- are the list of those in use, a pointer into code the code with a place in it, and an object an address
-- with its contents. Stack, Operators, Frames, Objects, Calls and Packages have a function for each of the
-- source, Step the switch and the loop, whose rounds are bounded by a fuel. What other components do, the
-- allocation, the string pool, native functions and compiled code, is the record Services. Safe points and
-- profiles have no effect on this state, and a monitor is taken at once. Of the two calls of pop in
-- addition_vm, whose order C leaves open, the one of the second argument comes first, and jump adds the
-- offset behind its operand.
--
-- Not modelled: the numbering of packages and their import, the inlining, the list of bytecodes, the
-- hash tables of strings, the collectors and the graph of the intermediate code with its passes. Printing, the threads of the host and the
-- allocators are calls of the host.
--
-- Examples runs the theorems at concrete inputs.
pub mod Prelude
pub mod Shared
pub mod Compiler
pub mod Jit
pub mod Runtime
mod Examples
