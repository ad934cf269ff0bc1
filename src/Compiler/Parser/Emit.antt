-- ===== src/Compiler/Parser/Emit.antt =====
-- The parser's writes to the chunk of the function that is compiled.
use lox_vm.Prelude.{ℕ, ◌+◌, ◌-◌, ◌/◌, ◌%◌, ◌^◌, List, take, ◌==◌, if◌then◌else◌}
use lox_vm.Compiler.Scanner.Tokens.{Token}
use lox_vm.Shared.Bytecode.{
  Bytecode, op_constant, op_package_const, op_nil, op_return, op_loop, op_define_global, opcode,
}
use lox_vm.Compiler.Chunk.{
  Chunk, write_chunk, write_u16_chunk, write_byte_at, add_constant_to_chunk,
}
use lox_vm.Compiler.Parser.State.{Result, ok, ◌>>=◌, checked, Compiler, Services, Step, ◌then◌}

abbrev pub current_chunk : Compiler → Chunk
current_chunk compiler = compiler.current_function.chunk

abbrev pub with_chunk : Compiler → Chunk → Compiler
with_chunk compiler chunk = record compiler {
  current_function = record compiler.current_function { chunk = chunk };
}

unfoldable pub emit_bytecode : ℕ → Step
emit_bytecode bytecode compiler =
    checked (write_chunk (current_chunk compiler) bytecode) >>= λ chunk.
    ok (with_chunk compiler chunk)

unfoldable pub emit_bytecodes : ℕ → ℕ → Step
unfolding emit_bytecode
emit_bytecodes a b = emit_bytecode a then emit_bytecode b

unfoldable pub emit_u16 : ℕ → Step
emit_u16 value compiler = checked (write_u16_chunk (current_chunk compiler) value) >>= λ chunk.
    ok (with_chunk compiler chunk)

-- The place in the table of constants, a byte.
unfoldable pub add_constant : ℕ → Compiler → Result (ℕ × Compiler)
add_constant value compiler =
    checked (add_constant_to_chunk (current_chunk compiler) value) >>= λ r.
    ok (r.0, with_chunk compiler r.1)

unfoldable pub emit_constant : ℕ → Step
unfolding add_constant emit_bytecodes
emit_constant value compiler =
    add_constant value compiler >>= λ r. emit_bytecodes (opcode op_constant) r.0 r.1

unfoldable pub emit_package_constant : ℕ → Step
unfolding add_constant emit_bytecodes
emit_package_constant value compiler =
    add_constant value compiler >>= λ r. emit_bytecodes (opcode op_package_const) r.0 r.1

-- the text of a token
abbrev pub text : Token → List ℕ
text token = take token.length token.start

unfoldable pub add_string_constant : Services → Token → Compiler → Result (ℕ × Compiler)
unfolding add_constant
add_string_constant services token = add_constant (services.string_value (text token))

unfoldable pub define_global_variable : ℕ → Step
unfolding emit_bytecodes
define_global_variable offset compiler =
    if compiler.local_depth == 0
    then emit_bytecodes (opcode op_define_global) offset compiler
    else ok compiler

unfoldable pub emit_empty_return : Step
unfolding emit_bytecodes
emit_empty_return = emit_bytecodes (opcode op_nil) (opcode op_return)

-- The place of the operand, which is written later.
unfoldable pub emit_jump : Bytecode → Compiler → Result (ℕ × Compiler)
unfolding emit_bytecode
emit_jump jump_opcode compiler =
    (emit_bytecode (opcode jump_opcode) then emit_bytecode 0 then emit_bytecode 0) compiler >>= λ c.
    ok ((current_chunk c).in_use - 2, c)

-- `write_u16_le` of a number that may be below zero
unfoldable pub patch_jump_here : ℕ → Step
unfolding write_byte_at
patch_jump_here jump_op_index compiler =
    let chunk = current_chunk compiler in
    let jump = (chunk.in_use + 2 ^ 32 - jump_op_index - 2) % 2 ^ 16 in
    checked (write_byte_at chunk.code jump_op_index jump) >>= λ low.
    checked (write_byte_at low (jump_op_index + 1) (jump / 2 ^ 8)) >>= λ code.
    ok (with_chunk compiler (record chunk { code = code }))

-- The distance is cut to 16 bits by `emit_u16`.
unfoldable pub emit_loop : ℕ → Step
unfolding emit_bytecode emit_u16
emit_loop loop_start_index = emit_bytecode (opcode op_loop) then λ c.
    emit_u16 (((current_chunk c).in_use + 2 ^ 32 - loop_start_index + 2) % 2 ^ 16) c
