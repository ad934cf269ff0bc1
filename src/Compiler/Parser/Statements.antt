-- ===== src/Compiler/Parser/Statements.antt =====
-- The handlers of statements. `statement` and `declaration` are the recursive calls, and `rounds` bounds the
-- loops and the expressions.
use lox_vm.Prelude.{ℕ, zero, suc, Bool, true, false, ◌||◌, not, none, some, ◌∷◌, ltb, if◌then◌else◌}
use lox_vm.Shared.Bytecode.{
  op_nil, op_pop, op_return, op_print, op_set_local, op_jump_if_false, op_jump, op_initialize_array,
  opcode,
}
use lox_vm.Compiler.Scanner.Tokens.{
  Token, TokenType, token_open_paren, token_close_paren, token_open_brace, token_close_brace,
  token_semicolon, token_equal, token_identifier, token_number, token_else, token_for, token_if,
  token_print, token_return, token_var, token_while, token_eof, token_sync, token_open_square,
  token_close_square,
}
use lox_vm.Compiler.Chunk.{chunk_start_new_context, chunk_restore_context, chunk_write_context}
use lox_vm.Compiler.Parser.State.{
  Result, ok, fault, unfinished, ◌>>=◌, checked, scope_function, scope_package, exported_var,
  ExportedSymbol, Compiler, Services, Step, ◌then◌,
}
use lox_vm.Compiler.Parser.Tokens.{report_error, check, match_token, consume}
use lox_vm.Compiler.Parser.Emit.{
  current_chunk, with_chunk, text, emit_bytecode, emit_bytecodes, emit_u16, add_string_constant,
  define_global_variable, emit_empty_return, emit_jump, patch_jump_here, emit_loop,
}
use lox_vm.Compiler.Parser.Scopes.{begin_scope, end_scope, add_local_variable}
use lox_vm.Compiler.Parser.Monitors.{emit_enter_monitor, emit_exit_monitor, emit_exit_all_monitors}
use lox_vm.Compiler.Parser.Variables.{find_trie, when, expression}
use lox_vm.Compiler.Parser.Expressions.{parse_precedence}

-- `if (match(type)) f else g`
unfoldable pub on_match : TokenType → Step → Step → Step
unfolding match_token
on_match type f g compiler =
    match_token type compiler >>= λ r. elim r.0 [ true ↦ f r.1 | false ↦ g r.1 ]

module _ (services : Services) (rounds : ℕ) where
  unfoldable pub whole_expression : Step
  unfolding expression parse_precedence
  whole_expression = expression services rounds (parse_precedence services rounds)

  unfoldable pub expression_statement : Step
  unfolding whole_expression consume emit_bytecode
  expression_statement compiler = do
    c₁ ← whole_expression compiler
    c₂ ← consume token_semicolon "Expected ';'." c₁
    if c₂.compiling_set_operation || c₂.compiling_set_array_element_operation
        then ok (record c₂ {
          compiling_set_array_element_operation = false;
          compiling_set_operation = false;
        })
        else emit_bytecode (opcode op_pop) c₂

  unfoldable pub print_statement : Step
  unfolding whole_expression consume emit_bytecode
  print_statement =
      whole_expression
      then consume token_semicolon "Expected ';' after print."
      then emit_bytecode (opcode op_print)

  unfoldable pub return_statement : Step
  unfolding report_error on_match emit_exit_all_monitors emit_empty_return whole_expression consume
      emit_bytecode
  return_statement compiler = elim compiler.current_scope [
    | scope_package ↦ report_error "Can't return from top level code"
    | scope_function ↦
        on_match token_semicolon (emit_exit_all_monitors then emit_empty_return)
          (whole_expression
            then emit_exit_all_monitors
            then consume token_semicolon "Expect ';' after return statement"
            then emit_bytecode (opcode op_return))
          compiler
  ]

  -- A number of elements, and the array without elements.
  unfoldable pub emtpy_array_initialization : Step
  unfolding consume emit_bytecode emit_u16
  emtpy_array_initialization compiler = do
    c₁ ← consume token_number "Expect array size after '['" compiler
    c₂ ← consume token_close_square "Expect ']' after array initialization" c₁
    let n_elements = services.double_to_int (services.strtod c₁.previous.start)
    (emit_bytecode (opcode op_initialize_array) then emit_u16 n_elements then emit_bytecode 1) c₂

  unfoldable pub variable_expression_declaration : Step
  unfolding on_match whole_expression emit_bytecode
  variable_expression_declaration =
      on_match token_equal whole_expression (emit_bytecode (opcode op_nil))

  unfoldable pub add_exported_symbol : ExportedSymbol → Token → Step
  unfolding find_trie report_error
  add_exported_symbol symbol name compiler =
      let symbols = compiler.compiling_package in
      elim (find_trie services symbols.exported_symbols (text name)) [
        | some _ ↦ report_error "Symbol already defined"
        | none ↦ ok (record compiler {
          compiling_package = record symbols {
            exported_symbols = (text name, symbol) ∷ symbols.exported_symbols;
          };
        })
      ]

  -- A variable of a scope: its number is taken before its value is compiled, which must not read it.
  unfoldable pub local_declaration : Bool → Token → Step
  unfolding add_local_variable variable_expression_declaration emit_bytecodes
  local_declaration is_array name compiler = add_local_variable name compiler >>= λ r. elim r.0 [
    | none ↦ fault
    | some number ↦ do
      c₂ ←
          when (not is_array) variable_expression_declaration
            (record r.1 { compiling_new_local_set_body = some number })
      emit_bytecodes (opcode op_set_local) number
          (record c₂ { compiling_new_local_set_body = none })
  ]

  unfoldable pub global_declaration : Bool → Bool → Bool → Token → Step
  unfolding add_string_constant variable_expression_declaration define_global_variable
      add_exported_symbol
  global_declaration is_public is_const is_array name compiler = do
    let c₀ : Compiler =
        if is_const
        then (record compiler {
          const_global_variables = text name ∷ compiler.const_global_variables;
        })
        else compiler
    (constant, c₁) ← add_string_constant services name c₀
    c₂ ← when (not is_array) variable_expression_declaration c₁
    c₃ ← define_global_variable constant c₂
    when is_public
        (add_exported_symbol
          (record { type = exported_var; constant_identifier = constant; is_const = is_const })
          name)
        c₃

  unfoldable pub var_declaration : Bool → Bool → Step
  unfolding consume on_match report_error local_declaration global_declaration
      emtpy_array_initialization
  var_declaration is_public is_const compiler = do
    c₁ ← consume token_identifier "Expected variable name." compiler
    let name = c₁.previous
    let is_array = check token_open_square c₁
    c₂ ← on_match token_open_square emtpy_array_initialization ok c₁
    c₃ ← elim (ltb 0 c₂.local_depth) [
      | true ↦
          if is_public
          then report_error "Cannot declare local variables value_as public"
          else if is_const
          then report_error "Cannot declare local variables value_as const"
          else local_declaration is_array name c₂
      | false ↦ global_declaration is_public is_const is_array name c₂
    ]
    consume token_semicolon "Expected ';' after variable declaration." c₃

  unfoldable pub for_loop_initializer : Step
  unfolding on_match var_declaration expression_statement
  for_loop_initializer =
      on_match token_semicolon ok
        (on_match token_var (var_declaration false false) expression_statement)

  unfoldable pub for_loop_condition : Compiler → Result (ℕ × Compiler)
  unfolding whole_expression consume emit_jump
  for_loop_condition compiler =
      (whole_expression then consume token_semicolon "Expect ';' after loop jump_to_operand")
        compiler
      >>= emit_jump op_jump_if_false

  unfoldable pub for_loop_increment : Step
  unfolding whole_expression consume
  for_loop_increment compiler = whole_expression compiler >>= λ c.
      consume token_close_paren "Expect ')' after for loop"
        (record c { compiling_set_operation = false })

  module _ (statement declaration : Step) where
    -- The loop of `block`.
    unfoldable pub block_rounds : ℕ → Step
    unfolding check
    block_rounds zero compiler = unfinished
    block_rounds (suc fuel) compiler =
        elim (check token_close_brace compiler || check token_eof compiler) [
          | true ↦ ok compiler
          | false ↦ declaration compiler >>= block_rounds fuel
        ]

    unfoldable pub block : Step
    unfolding block_rounds consume
    block = block_rounds rounds then consume token_close_brace "Expected '}' after block."

    unfoldable pub sync_statement : Step
    unfolding emit_enter_monitor emit_exit_monitor
    sync_statement = emit_enter_monitor then statement then emit_exit_monitor

    unfoldable pub if_statement : Step
    unfolding consume whole_expression emit_jump patch_jump_here on_match
    if_statement compiler = do
      c₁ ← consume token_open_paren "Expect '(' after if." compiler
      c₂ ← whole_expression c₁
      c₃ ← consume token_close_paren "Expect ')' after jump_to_operand." c₂
      (then_jump, c₄) ← emit_jump op_jump_if_false c₃
      c₅ ← statement c₄
      (else_jump, c₆) ← emit_jump op_jump c₅
      c₇ ← patch_jump_here then_jump c₆
      c₈ ← on_match token_else statement ok c₇
      patch_jump_here else_jump c₈

    unfoldable pub while_statement : Step
    unfolding consume whole_expression emit_jump emit_loop patch_jump_here
    while_statement compiler = do
      let loop_start_index = (current_chunk compiler).in_use
      c₁ ← consume token_open_paren "Expect '(' after while declaration." compiler
      c₂ ← whole_expression c₁
      c₃ ← consume token_close_paren "Expect ')' after while declaration." c₂
      (exit_jump, c₄) ← emit_jump op_jump_if_false c₃
      c₅ ← statement c₄
      c₆ ← emit_loop loop_start_index c₅
      patch_jump_here exit_jump c₆

    -- The code of the increment is written to another memory, and appended behind the body.
    unfoldable pub for_loop : Step
    unfolding consume begin_scope end_scope for_loop_initializer for_loop_condition
        for_loop_increment emit_loop patch_jump_here
    for_loop compiler = do
      c₁ ← consume token_open_paren "Expect '(' after for." (begin_scope compiler)
      c₂ ← for_loop_initializer c₁
      let loop_start_index = (current_chunk c₂).in_use
      (jump_index, c₃) ← for_loop_condition c₂
      let (prev, fresh) = chunk_start_new_context (current_chunk c₃)
      c₄ ← for_loop_increment (with_chunk c₃ fresh)
      let (increment, restored) = chunk_restore_context (current_chunk c₄) prev
      c₅ ← statement (with_chunk c₄ restored)
      chunk ← checked (chunk_write_context (current_chunk c₅) increment)
      c₆ ← emit_loop loop_start_index (with_chunk c₅ chunk)
      c₇ ← patch_jump_here jump_index c₆
      ok (end_scope c₇)

    unfoldable pub statement_rules : Step
    unfolding on_match print_statement block for_loop while_statement if_statement return_statement
        sync_statement expression_statement begin_scope end_scope
    statement_rules = on_match token_print print_statement (
        on_match token_open_brace (λ c. block (begin_scope c) >>= λ d. ok (end_scope d))
          (on_match token_for for_loop (
            on_match token_while while_statement (
              on_match token_if if_statement (
                on_match token_return return_statement
                  (on_match token_sync sync_statement expression_statement))))))
