-- ===== src/Compiler/Chunk/Iterator.antt =====
-- src/compiler/bytecode/chunk/chunk_iterator.c: the instructions of a chunk, one after another. The pointer
-- `pc` is an index into the code. `none` is a read outside of the code or a byte that is no instruction.
-- `read_u64_chunk_iterator` shifts an `int` by 32 bits and more, which C leaves undefined: it is no part.
use lox_vm.Prelude.{
  ℕ, ◌+◌, ◌-◌, ◌*◌, Option, none, some, ◌>>=◌, Bool, true, false, ◌==◌, leb, if◌then◌else◌,
  get_elem?,
}
use lox_vm.Shared.Bytecode.{
  Bytecode, op_constant, op_eof, opcode, to_bytecode, get_size_bytecode_instruction,
}
use lox_vm.Compiler.Chunk.{Chunk}

pub record ChunkIterator : Type 0 where
  pub iterating : Chunk
  pub pc : ℕ
  pub last_instruction : Bytecode
  pub eof_already_hitted : Bool

unfoldable pub iterate_chunk : Chunk → ChunkIterator
iterate_chunk chunk = record {
  iterating = chunk;
  pc = 0;
  last_instruction = op_constant;
  eof_already_hitted = false;
}

-- `*pc`
unfoldable pub at_pc : ChunkIterator → ℕ → Option ℕ
at_pc it index = get_elem? it.iterating.code index

-- `*(pc - n)`
unfoldable pub behind_pc : ChunkIterator → ℕ → Option ℕ
unfolding at_pc
behind_pc it n = if leb n it.pc then at_pc it (it.pc - n) else none

unfoldable pub next_instruction_chunk_iterator : ChunkIterator → Option (Bytecode × ChunkIterator)
unfolding at_pc
next_instruction_chunk_iterator it = at_pc it it.pc >>= to_bytecode >>= λ current_instruction.
    some (
      current_instruction,
      record it {
        pc = it.pc + 1 + (get_size_bytecode_instruction current_instruction - 1);
        last_instruction = current_instruction;
      },
    )

unfoldable pub read_u8_chunk_iterator : ChunkIterator → Option ℕ
unfolding behind_pc
read_u8_chunk_iterator it = behind_pc it 1

unfoldable pub current_instruction_index_chunk_iterator : ChunkIterator → ℕ
current_instruction_index_chunk_iterator it =
    it.pc - get_size_bytecode_instruction it.last_instruction

unfoldable pub read_u8_chunk_iterator_at : ChunkIterator → ℕ → Option ℕ
unfolding at_pc current_instruction_index_chunk_iterator
read_u8_chunk_iterator_at it offset_from_bytecode =
    at_pc it (current_instruction_index_chunk_iterator it + offset_from_bytecode + 1)

-- `read_u16_le`, the lower byte first
unfoldable pub read_u16_chunk_iterator : ChunkIterator → Option ℕ
unfolding behind_pc
read_u16_chunk_iterator it =
    behind_pc it 2 >>= λ low. behind_pc it 1 >>= λ high. some (low + 256 * high)

unfoldable pub read_constant_chunk_iterator : ChunkIterator → Option ℕ
unfolding read_u8_chunk_iterator
read_constant_chunk_iterator it = read_u8_chunk_iterator it >>= get_elem? it.iterating.constants

unfoldable pub has_next_chunk_iterator : ChunkIterator → Option (Bool × ChunkIterator)
unfolding at_pc
has_next_chunk_iterator it =
    if it.eof_already_hitted
    then some (false, it)
    else (at_pc it it.pc >>= λ byte.
        some (true, if byte == opcode op_eof then record it { eof_already_hitted = true } else it))
