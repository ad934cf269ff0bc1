-- ===== src/Compiler/Parser/Control.antt =====
-- Statements as trees, their tokens, and the code that they stand for: the jumps are relative, so that the
-- code of a tree does not depend on where it stands.
pub mod Words
pub mod Dispatch
pub mod Scopes
pub mod Branches
pub mod Sequences
pub mod Runs
pub mod Whole
use lox_vm.Prelude.{
  ◌>>=◌, ℕ, zero, suc, ◌+◌, ◌-◌, ◌*◌, ◌/◌, ◌%◌, ◌^◌, ◌≤◌, ◌<◌, min, max, bit_and, bit_or, bit_xor,
  String, ◌≡◌, refl, sym, ap, ap₂, ◌∙◌, ◌≢◌, ◌↔◌, ◌⊎◌, inl, inr, Bool, true, false, ◌&&◌, ◌||◌, not,
  Option, none, some, List, [], ◌∷◌, ◌++◌, append_assoc, append-nil, arith, ltb, leb, ◌==◌,
  if◌then◌else◌, ==_iff, Bool-cases, Option-cases, length, get_elem?, get_or, set, take, drop,
  replicate, length-append, length-set, length-replicate, get_or-replicate, get_or-set_self,
  get_or-set_ne, take-length-append, drop-length-append, list_eq, list_eq_sound, codes,
}
use lox_vm.Shared.Bytecode.{
  Bytecode, op_constant, op_nil, op_true, op_false, op_pop, op_equal, op_greater, op_less,
  op_return, op_negate, op_print, op_eof, op_add, op_sub, op_define_global, op_get_global,
  op_set_global, op_get_local, op_set_local, op_mul, op_div, op_not, op_jump_if_false, op_jump,
  op_loop, op_call, op_initialize_struct, op_get_struct_field, op_set_struct_field,
  op_enter_package, op_exit_package, op_enter_monitor, op_exit_monitor, op_initialize_array,
  op_get_array_element, op_set_array_element, op_fast_const_8, op_fast_const_16, op_const_1,
  op_const_2, op_no_op, op_package_const, op_enter_monitor_explicit, op_exit_monitor_explicit,
  op_binary_op_and, op_binary_op_or, op_left_shift, op_right_shift, op_modulo, op_get_array_length,
  opcode,
}
use lox_vm.Compiler.Scanner.Tokens.{
  Token, TokenType, token_open_paren, token_close_paren, token_open_brace, token_close_brace,
  token_comma, token_dot, token_minus, token_plus, token_semicolon, token_slash, token_star,
  token_bang, token_bang_equal, token_equal, token_equal_equal, token_greater, token_greater_equal,
  token_less, token_less_equal, token_identifier, token_string, token_number, token_and, token_else,
  token_false, token_for, token_fun, token_if, token_nil, token_or, token_print, token_return,
  token_true, token_var, token_while, token_error, token_eof, token_struct, token_colon,
  token_const, token_pub, token_use, token_parallel, token_sync, token_open_square,
  token_close_square, token_inline, token_ampersand, token_bar, token_left_shift, token_right_shift,
  token_percentage, token_len, token_no_token,
}
use lox_vm.Compiler.Chunk.{
  Chunk, chunk_start_new_context, chunk_restore_context, chunk_write_context,
}
use lox_vm.Compiler.Parser.State.{
  Result, ok, error, fault, unfinished, checked, ScopeType, scope_function, scope_package,
  exported_function, exported_struct, exported_var, ExportedSymbol, StructDefinition, Symbols,
  Local, Compiled, Compiler, Services, Step, Parse, ◌then◌, first_local, init_compiler,
}
use lox_vm.Compiler.Parser.Tokens.{
  token_code, report_error, next_token, advance_compiler, check, match_token, consume,
}
use lox_vm.Compiler.Parser.Emit.{
  current_chunk, with_chunk, text, emit_bytecode, emit_bytecodes, emit_u16, add_constant,
  add_string_constant, emit_constant, emit_package_constant, define_global_variable,
  emit_empty_return, emit_jump, patch_jump_here, emit_loop,
}
use lox_vm.Compiler.Parser.Monitors.{emit_enter_monitor, emit_exit_monitor, emit_exit_all_monitors}
use lox_vm.Compiler.Chunk.Writes.{IsChunk, written}
use lox_vm.Compiler.Parser.Scopes.{resolve_local_variable, resolve_in}
use lox_vm.Compiler.Parser.Rules.{
  prec_assignment, prec_equality, prec_comparison, prec_term, prec_factor, prec_unary, get_rule,
  unary_prefix, binary_suffix,
}
use lox_vm.Compiler.Parser.Variables.{
  is_const_variable, own_identifier, variable_identifier, check_set, expression, named_variable,
  is_being_defined,
}
use lox_vm.Compiler.Parser.Expressions.{
  emit_all, unary_code, binary_code, string_contains, number_expression, string_expression, literal,
  grouping, unary, binary, array_length, read_access, variable, call_prefix, call_suffix,
  parse_suffixes, check_target, parse_precedence,
}
use lox_vm.Compiler.Parser.Grammar.{
  Spelling, spelled, Literal, literal_false, literal_true, literal_nil, UnaryOperator, negation,
  complement, BinaryOperator, equal_to, not_equal, less, less_or_equal, greater, greater_or_equal,
  plus, minus, remainder, conjunction, disjunction, left_shift, right_shift, times, divided_by,
  Expr, constant, numeral, text_constant, name, group, array_size, unary_expr, binary_expr,
  literal_type, unary_type, binary_type, binding, print_expr, level, well_bracketed, Generated,
  byte_of, bytes_of_all, with_constant, followed_by, in_sequence, operator_code, prefix_code,
  constant_code, numeral_code, name_code, generate, depth_of, Names, names,
}
use lox_vm.Compiler.Parser.Grammar.Reading.{
  reading, readable, advance_compiler-reading, Holding, Leads, Leads-bind, Leads-path, Leads-code,
  Leads-constants,
}
use lox_vm.Compiler.Parser.Grammar.Writing.{
  emit_bytecode-Leads, emit_u16-Leads, emit_bytecodes-Leads, emit_all-Leads, some-pair,
  with_constant-Leads, add_constant-reading, emit_place-Leads, Leads-ok, one_more, Leads-some,
}
use lox_vm.Compiler.Parser.Grammar.Jumps.{distance}

mutual
  pub data Statement : Type 0 where
    print_of : Spelling → Expr → Spelling → Statement
    expression_of : Expr → Spelling → Statement
    nested : Spelling → Statements → Statement
    while_do : Spelling → Spelling → Expr → Spelling → Spelling → Statements → Statement
    if_only : Spelling → Spelling → Expr → Spelling → Spelling → Statements → Statement
    if_else :
        Spelling
        → Spelling
        → Expr
        → Spelling
        → Spelling
        → Statements
        → Spelling
        → Spelling
        → Statements
        → Statement

  -- The rest of a block, with the brace that closes it.
  pub data Statements : Type 0 where
    closed : Spelling → Statements
    followed : Statement → Statements → Statements

abbrev pub condition_tokens : Spelling → Expr → Spelling → List Token → List Token
condition_tokens s e s₁ ts =
    spelled token_open_paren s ∷ (print_expr e ++ spelled token_close_paren s₁ ∷ ts)

unfoldable mutual
  unfolding print_expr

  -- The tokens of a statement before others.
  pub print_statement_tree : Statement → List Token → List Token
  print_statement_tree (print_of s e s₁) ts =
      spelled token_print s ∷ (print_expr e ++ spelled token_semicolon s₁ ∷ ts)
  print_statement_tree (expression_of e s) ts = print_expr e ++ spelled token_semicolon s ∷ ts
  print_statement_tree (nested s b) ts = spelled token_open_brace s ∷ print_statements b ts
  print_statement_tree (while_do s s₁ e s₂ s₃ b) ts =
      spelled token_while s
      ∷ condition_tokens s₁ e s₂ (spelled token_open_brace s₃ ∷ print_statements b ts)
  print_statement_tree (if_only s s₁ e s₂ s₃ b) ts =
      spelled token_if s
      ∷ condition_tokens s₁ e s₂ (spelled token_open_brace s₃ ∷ print_statements b ts)
  print_statement_tree (if_else s s₁ e s₂ s₃ b s₄ s₅ d) ts =
      spelled token_if s
      ∷ condition_tokens s₁ e s₂ (
          spelled token_open_brace s₃
          ∷ print_statements b
              (spelled token_else s₄ ∷ spelled token_open_brace s₅ ∷ print_statements d ts))

  pub print_statements : Statements → List Token → List Token
  print_statements (closed s) ts = spelled token_close_brace s ∷ ts
  print_statements (followed s b) ts = print_statement_tree s (print_statements b ts)

unfoldable mutual
  unfolding well_bracketed

  pub well_formed : Statement → Bool
  well_formed (print_of s e s₁) = well_bracketed e
  well_formed (expression_of e s) = well_bracketed e
  well_formed (nested s b) = all_well_formed b
  well_formed (while_do s s₁ e s₂ s₃ b) = well_bracketed e && all_well_formed b
  well_formed (if_only s s₁ e s₂ s₃ b) = well_bracketed e && all_well_formed b
  well_formed (if_else s s₁ e s₂ s₃ b s₄ s₅ d) =
      well_bracketed e && (all_well_formed b && all_well_formed d)

  pub all_well_formed : Statements → Bool
  all_well_formed (closed s) = true
  all_well_formed (followed s b) = well_formed s && all_well_formed b

unfoldable mutual
  unfolding depth_of

  -- Fuel that is enough.
  pub statement_depth : Statement → ℕ
  statement_depth (print_of s e s₁) = suc (depth_of e)
  statement_depth (expression_of e s) = suc (depth_of e)
  statement_depth (nested s b) = suc (statements_depth b)
  statement_depth (while_do s s₁ e s₂ s₃ b) = suc (depth_of e + suc (statements_depth b))
  statement_depth (if_only s s₁ e s₂ s₃ b) = suc (depth_of e + suc (statements_depth b))
  statement_depth (if_else s s₁ e s₂ s₃ b s₄ s₅ d) =
      suc (depth_of e + (suc (statements_depth b) + suc (statements_depth d)))

  pub statements_depth : Statements → ℕ
  statements_depth (closed s) = 1
  statements_depth (followed s b) = suc (statement_depth s) + statements_depth b

-- A jump over so many bytes.
abbrev pub jump_over : Bytecode → ℕ → List ℕ
jump_over op n = byte_of op ∷ distance n

-- A condition, the jump that is taken when it is false, over a branch and three bytes, and what follows.
abbrev pub conditional :
    Generated → (List ℕ → Generated) → (List ℕ → List ℕ → List ℕ → Generated) → Generated
conditional g f h = g >>= λ c. f c.1 >>= λ b. h c.0 b.0 b.1 >>= λ r.
    some (c.0 ++ (jump_over op_jump_if_false (length b.0 + 3) ++ (b.0 ++ r.0)), r.1)

-- The end of a body jumps back to the condition.
abbrev pub jump_back : List ℕ → List ℕ → List ℕ → Generated
jump_back c b constants = some (jump_over op_loop (length c + length b + 6), constants)

-- The end of the branch that is taken jumps over the other one.
abbrev pub otherwise : (List ℕ → Generated) → List ℕ → List ℕ → List ℕ → Generated
otherwise f c b constants = f constants >>= λ r. some (jump_over op_jump (length r.0) ++ r.0, r.1)

abbrev pub nothing_else : List ℕ → Generated
nothing_else constants = some ([], constants)

unfoldable mutual
  unfolding generate

  pub generate_statement : Services → Names → Statement → List ℕ → Generated
  generate_statement services ns (print_of s e s₁) constants =
      followed_by (generate services ns e constants) (op_print ∷ [])
  generate_statement services ns (expression_of e s) constants =
      followed_by (generate services ns e constants) (op_pop ∷ [])
  generate_statement services ns (nested s b) constants =
      generate_statements services ns b constants
  generate_statement services ns (while_do s s₁ e s₂ s₃ b) constants =
      conditional (generate services ns e constants) (generate_statements services ns b) jump_back
  generate_statement services ns (if_only s s₁ e s₂ s₃ b) constants =
      conditional (generate services ns e constants) (generate_statements services ns b)
        (otherwise nothing_else)
  generate_statement services ns (if_else s s₁ e s₂ s₃ b s₄ s₅ d) constants =
      conditional (generate services ns e constants) (generate_statements services ns b)
        (otherwise (generate_statements services ns d))

  pub generate_statements : Services → Names → Statements → List ℕ → Generated
  generate_statements services ns (closed s) constants = some ([], constants)
  generate_statements services ns (followed s b) constants =
      in_sequence (generate_statement services ns s constants) (generate_statements services ns b)
        []
