-- ===== src/Examples/Chunks.antt =====
-- Small chunks, written and walked through.
use lox_vm.Prelude.{
  ℕ, ◌+◌, ◌*◌, ◌/◌, ◌%◌, ◌^◌, ◌<◌, ◌≡◌, refl, List, [], ◌∷◌, ◌++◌, some, inl, arith, take,
  get_elem?, false,
}
use lox_vm.Shared.Bytecode.{
  op_fast_const_8, op_jump, op_print, opcode, get_size_bytecode_instruction,
}
use lox_vm.Compiler.Chunk.{
  Chunk, ChunkBytecodeContext, init_chunk, write_chunk, write_u16_chunk, chunk_write_context,
}
use lox_vm.Compiler.Chunk.Writes.{IsChunk, Writes, bytes_of, chunk-Writes}
use lox_vm.Compiler.Chunk.Iterator.{
  iterate_chunk, next_instruction_chunk_iterator, read_u8_chunk_iterator, read_u8_chunk_iterator_at,
  read_u16_chunk_iterator,
}
use lox_vm.Compiler.Chunk.Walk.{
  Instruction, encode, places, at, visit, visit-encode, next_instruction-reads,
}

init_chunk-IsChunk : IsChunk init_chunk
unfolding init_chunk
init_chunk-IsChunk = record {
  memory = refl;
  used = omega arith;
  grown = inl refl;
  covered = λ size h. omega arith;
}

chunk-Writes_example :
    ((byte : ℕ) → Writes (write_chunk init_chunk byte) init_chunk (byte % 256 ∷ []))
    × ((value : ℕ)
        → Writes
            (write_u16_chunk init_chunk value)
            init_chunk
            (value % 256 ∷ value / 2 ^ 8 % 256 ∷ []))
    × ((prev : ChunkBytecodeContext)
        → Writes
            (chunk_write_context init_chunk prev)
            init_chunk
            (bytes_of (take prev.in_use prev.code)))
chunk-Writes_example = chunk-Writes init_chunk init_chunk-IsChunk

abbrev push_three : Instruction
unfolding get_size_bytecode_instruction opcode
push_three = record { op = op_fast_const_8; operands = 3 ∷ []; sized = refl; not_last = refl }

abbrev jump_far : Instruction
unfolding get_size_bytecode_instruction opcode
jump_far = record { op = op_jump; operands = 1 ∷ 2 ∷ []; sized = refl; not_last = refl }

abbrev print_it : Instruction
unfolding get_size_bytecode_instruction opcode
print_it = record { op = op_print; operands = []; sized = refl; not_last = refl }

abbrev program : List Instruction
program = push_three ∷ jump_far ∷ print_it ∷ []

abbrev sample : Chunk
sample = record {
  constants = [];
  code = encode program ++ 0 ∷ [];
  capacity = 8;
  in_use = 7;
  lines = some 256;
}

visit-encode_example : visit 5 (iterate_chunk sample) ≡ some (places 0 program)
unfolding get_size_bytecode_instruction opcode
visit-encode_example = visit-encode program sample (0 ∷ []) refl

next_instruction-reads_example :
    let it = at sample 5 op_jump false in
    (next_instruction_chunk_iterator (at sample 2 op_fast_const_8 false) ≡ some (op_jump, it))
    × ((k : ℕ) → k < 2 → read_u8_chunk_iterator_at it k ≡ get_elem? (1 ∷ 2 ∷ []) k)
    × (0 < 2 → read_u8_chunk_iterator it ≡ some 2)
    × ((low high : ℕ)
        → jump_far.operands ≡ low ∷ high ∷ []
        → read_u16_chunk_iterator it ≡ some (low + 256 * high))
unfolding get_size_bytecode_instruction opcode
next_instruction-reads_example =
    next_instruction-reads jump_far sample (36 ∷ 3 ∷ []) (10 ∷ 11 ∷ 0 ∷ []) op_fast_const_8 false
      refl
