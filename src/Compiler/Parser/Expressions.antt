-- ===== src/Compiler/Parser/Expressions.antt =====
-- The handlers of expressions, by the table of the rules, and parse_precedence. Every call of
-- parse_precedence costs a unit of fuel, and so does every round of a loop.
use lox_vm.Prelude.{
  ℕ, zero, suc, ◌+◌, ◌-◌, Bool, true, false, not, ◌&&◌, ◌||◌, List, [], ◌∷◌, Option, none, some,
  ◌==◌, leb, take, drop, if◌then◌else◌,
}
use lox_vm.Shared.Bytecode.{
  Bytecode, op_nil, op_true, op_false, op_equal, op_greater, op_less, op_negate, op_not, op_add,
  op_sub, op_mul, op_div, op_modulo, op_binary_op_and, op_binary_op_or, op_left_shift,
  op_right_shift, op_const_1, op_const_2, op_fast_const_8, op_fast_const_16, op_initialize_array,
  op_get_array_length, op_jump, op_jump_if_false, opcode,
}
use lox_vm.Compiler.Scanner.Tokens.{
  Token, TokenType, token_open_paren, token_close_paren, token_open_brace, token_minus, token_plus,
  token_slash, token_star, token_bang, token_bang_equal, token_equal, token_equal_equal,
  token_greater, token_greater_equal, token_less, token_less_equal, token_false, token_nil,
  token_true, token_colon, token_open_square, token_close_square, token_ampersand, token_bar,
  token_left_shift, token_right_shift, token_percentage,
}
use lox_vm.Compiler.Parser.State.{
  Result, ok, fault, unfinished, ◌>>=◌, scope_function, scope_package, Symbols, Compiler, Services,
  Step, Parse, ◌then◌,
}
use lox_vm.Compiler.Parser.Tokens.{report_error, advance_compiler, check, match_token, consume}
use lox_vm.Compiler.Parser.Emit.{
  text, emit_bytecode, emit_bytecodes, emit_u16, emit_constant, emit_jump, patch_jump_here,
}
use lox_vm.Compiler.Parser.Rules.{
  prec_assignment, prec_or, prec_and, prec_unary, Prefix, Suffix, get_rule, no_prefix,
  grouping_prefix, inline_expression_prefix, array_inline_initialization_prefix, unary_prefix,
  array_length_prefix, variable_prefix, string_prefix, number_prefix, literal_prefix, no_suffix,
  function_call_suffix, dot_suffix, binary_suffix, and_suffix, or_suffix,
}
use lox_vm.Compiler.Parser.Variables.{
  load_package, expression, expressions, struct_initialization, function_call, dot, named_variable,
}

unfoldable pub string_contains : List ℕ → ℕ → Bool
string_contains [] to_check = false
string_contains (c ∷ rest) to_check = c == to_check || string_contains rest to_check

-- The instruction that loads a number. `strtod` reads from the first byte of the token.
unfoldable pub number_expression : Services → Bool → Step
unfolding string_contains emit_constant emit_bytecode emit_bytecodes emit_u16
number_expression services can_assign compiler =
    let token = compiler.previous in
    let value = services.strtod token.start in
    let has_decimal = string_contains (text token) b'.' in
    let is_8 = services.double_at_most value 127 in
    let is_16 = not is_8 && services.double_at_most value 32767 in
    if has_decimal || (not is_8 && not is_16)
    then emit_constant value compiler
    else if not has_decimal && services.double_equals value 1
    then emit_bytecode (opcode op_const_1) compiler
    else if not has_decimal && services.double_equals value 2
    then emit_bytecode (opcode op_const_2) compiler
    else if not has_decimal && is_8
    then emit_bytecodes (opcode op_fast_const_8) (services.double_to_int value) compiler
    else if not has_decimal && is_16
    then (emit_bytecode (opcode op_fast_const_16) then emit_u16 (services.double_to_int value))
        compiler
    else ok compiler

unfoldable pub string_expression : Services → Bool → Step
unfolding emit_constant
string_expression services can_assign compiler =
    let token = compiler.previous in
    emit_constant (services.string_value (take (token.length - 2) (drop 1 token.start))) compiler

-- The instruction of a literal, and those that follow the operands of an operator.
abbrev pub literal_code : TokenType → List Bytecode
literal_code token_false = op_false ∷ []
literal_code token_true = op_true ∷ []
literal_code token_nil = op_nil ∷ []
literal_code _ = []

abbrev pub unary_code : TokenType → List Bytecode
unary_code token_minus = op_negate ∷ []
unary_code token_bang = op_not ∷ []
unary_code _ = []

abbrev pub binary_code : TokenType → List Bytecode
binary_code token_percentage = op_modulo ∷ []
binary_code token_ampersand = op_binary_op_and ∷ []
binary_code token_bar = op_binary_op_or ∷ []
binary_code token_right_shift = op_right_shift ∷ []
binary_code token_left_shift = op_left_shift ∷ []
binary_code token_plus = op_add ∷ []
binary_code token_minus = op_sub ∷ []
binary_code token_star = op_mul ∷ []
binary_code token_slash = op_div ∷ []
binary_code token_bang_equal = op_equal ∷ op_not ∷ []
binary_code token_equal_equal = op_equal ∷ []
binary_code token_greater = op_greater ∷ []
binary_code token_greater_equal = op_less ∷ op_not ∷ []
binary_code token_less = op_less ∷ []
binary_code token_less_equal = op_greater ∷ op_not ∷ []
binary_code _ = []

unfoldable pub emit_all : List Bytecode → Step
unfolding emit_bytecode
emit_all [] compiler = ok compiler
emit_all (op ∷ ops) compiler = (emit_bytecode (opcode op) then emit_all ops) compiler

unfoldable pub literal : Bool → Step
unfolding emit_all
literal can_assign compiler = emit_all (literal_code compiler.previous.type) compiler

-- The name that `variable` has read, and what stands around it.
pub record Access : Type 0 where
  name : Token
  is_from_function : Bool
  is_from_array : Bool
  external : Option Symbols
  compiler : Compiler

module _ (services : Services) (rounds : ℕ) (parse : Parse) where
  unfoldable pub grouping : Bool → Step
  unfolding expression consume
  grouping can_assign =
      expression services rounds parse then consume token_close_paren "Expected ')'"

  unfoldable pub unary : Bool → Step
  unfolding emit_all
  unary can_assign compiler =
      let type = compiler.previous.type in
      (parse prec_unary then emit_all (unary_code type)) compiler

  unfoldable pub binary : Bool → Step
  unfolding get_rule emit_all
  binary can_assign compiler =
      let type = compiler.previous.type in
      (parse ((get_rule type).precedence + 1) then emit_all (binary_code type)) compiler

  unfoldable pub and : Bool → Step
  unfolding emit_jump patch_jump_here
  and can_assign compiler = do
    (end_jump, c₁) ← emit_jump op_jump_if_false compiler
    (parse prec_and then patch_jump_here end_jump) c₁

  unfoldable pub or : Bool → Step
  unfolding emit_jump patch_jump_here
  or can_assign compiler = do
    (else_jump, c₁) ← emit_jump op_jump_if_false compiler
    (then_jump, c₂) ← emit_jump op_jump c₁
    (patch_jump_here else_jump then parse prec_or then patch_jump_here then_jump) c₂

  -- The number of elements is cut to 16 bits.
  unfoldable pub array_inline_initialization : Bool → Step
  unfolding expressions consume emit_bytecode emit_u16
  array_inline_initialization can_assign compiler = do
    (n_elements, c₁) ← expressions services rounds parse rounds compiler
    c₂ ← consume token_close_square "Expect ']' after array initialization" c₁
    (emit_bytecode (opcode op_initialize_array) then emit_u16 n_elements then emit_bytecode 0) c₂

  unfoldable pub array_length : Bool → Step
  unfolding consume expression emit_bytecode
  array_length can_assign =
      consume token_open_paren "Expect '(' after len"
      then expression services rounds parse
      then emit_bytecode (opcode op_get_array_length)
      then consume token_close_paren "Expect ')' after len"

  unfoldable pub inline_expression : Bool → Step
  unfolding report_error expression
  inline_expression can_assign compiler = elim compiler.current_scope [
    | scope_package ↦ report_error "Cannot inline in top level code"
    | scope_function ↦
        expression services rounds parse (record compiler { compiling_inline_call = true }) >>= λ c.
        ok (record c { compiling_inline_call = false })
  ]

  -- The three forms of a name: of a package, before an index, and alone.
  unfoldable pub read_access : Compiler → Result Access
  unfolding check load_package consume advance_compiler expression
  read_access compiler = elim (check token_colon compiler) [
    | true ↦ do
      (symbols, c₁) ← load_package services compiler
      c₂ ← consume token_colon "Expect ':' after : when accessing a package symbol" c₁
      c₃ ← consume token_colon "Expect ':' after : when accessing a package symbol" c₂
      c₄ ← advance_compiler c₃
      ok (record {
        name = c₄.previous;
        is_from_function = check token_open_paren c₄;
        is_from_array = false;
        external = some symbols;
        compiler = c₄;
      })
    | false ↦ elim (check token_open_square compiler) [
      | true ↦ do
        c₁ ← advance_compiler compiler
        c₂ ← expression services rounds parse c₁
        c₃ ← consume token_close_square "Expect `]` when accessing array" c₂
        ok (record {
          name = compiler.previous;
          is_from_function = false;
          is_from_array = true;
          external = none;
          compiler = c₃;
        })
      | false ↦ ok (record {
        name = compiler.previous;
        is_from_function = check token_open_paren compiler;
        is_from_array = false;
        external = none;
        compiler = compiler;
      })
    ]
  ]

  unfoldable pub variable : Bool → Step
  unfolding read_access report_error check struct_initialization named_variable
  variable can_assign compiler = do
    access ← read_access compiler
    let c = access.compiler
    let both = access.is_from_function && (c.compiling_parallel_call && c.compiling_inline_call)
    elim both [
      | true ↦ report_error "'inline' and 'parallel' cannot be used together"
      | false ↦ do
        c₁ ← elim (check token_open_brace c) [
          | true ↦ struct_initialization services rounds parse access.external c
          | false ↦
              named_variable services rounds parse access.name can_assign access.external
                access.is_from_array c
        ]
        elim access.is_from_function [
          | true ↦ ok (record c₁ {
            current_function_call_name = text access.name;
            function_call_list = text access.name ∷ c₁.function_call_list;
          })
          | false ↦ ok c₁
        ]
    ]

  unfoldable pub call_prefix : Prefix → Bool → Step
  unfolding report_error grouping inline_expression array_inline_initialization unary array_length
      variable string_expression number_expression literal
  call_prefix no_prefix can_assign compiler = report_error "Expect expression"
  call_prefix grouping_prefix can_assign compiler = grouping can_assign compiler
  call_prefix inline_expression_prefix can_assign compiler = inline_expression can_assign compiler
  call_prefix array_inline_initialization_prefix can_assign compiler =
      array_inline_initialization can_assign compiler
  call_prefix unary_prefix can_assign compiler = unary can_assign compiler
  call_prefix array_length_prefix can_assign compiler = array_length can_assign compiler
  call_prefix variable_prefix can_assign compiler = variable can_assign compiler
  call_prefix string_prefix can_assign compiler = string_expression services can_assign compiler
  call_prefix number_prefix can_assign compiler = number_expression services can_assign compiler
  call_prefix literal_prefix can_assign compiler = literal can_assign compiler

  -- A call of a null pointer is a fault.
  unfoldable pub call_suffix : Suffix → Bool → Step
  unfolding function_call dot binary and or
  call_suffix no_suffix can_assign compiler = fault
  call_suffix function_call_suffix can_assign compiler =
      function_call services rounds parse can_assign compiler
  call_suffix dot_suffix can_assign compiler = dot services rounds parse can_assign compiler
  call_suffix binary_suffix can_assign compiler = binary can_assign compiler
  call_suffix and_suffix can_assign compiler = and can_assign compiler
  call_suffix or_suffix can_assign compiler = or can_assign compiler

  -- The loop over the suffixes that bind at least as tightly as `precedence`.
  unfoldable pub parse_suffixes : ℕ → ℕ → Bool → Step
  unfolding get_rule advance_compiler call_suffix
  parse_suffixes zero precedence can_assign compiler = unfinished
  parse_suffixes (suc fuel) precedence can_assign compiler =
      elim (leb precedence (get_rule compiler.current.type).precedence) [
        | true ↦ do
          c₁ ← advance_compiler compiler
          c₂ ← call_suffix (get_rule c₁.previous.type).suffix can_assign c₁
          parse_suffixes fuel precedence can_assign c₂
        | false ↦ ok compiler
      ]

-- The test behind the loop of parse_precedence.
unfoldable pub check_target : Bool → Step
unfolding match_token report_error
check_target false compiler = ok compiler
check_target true compiler = match_token token_equal compiler >>= λ r.
    if r.0 then report_error "Invalid assigment target." else ok r.1

unfoldable pub parse_precedence : Services → ℕ → Parse
unfolding advance_compiler get_rule call_prefix parse_suffixes check_target
parse_precedence services zero precedence compiler = unfinished
parse_precedence services (suc fuel) precedence compiler = do
  c₁ ← advance_compiler compiler
  let can_assign = leb precedence prec_assignment
  c₂ ←
      call_prefix services fuel (parse_precedence services fuel) (get_rule c₁.previous.type).prefix
        can_assign c₁
  c₃ ← parse_suffixes services fuel (parse_precedence services fuel) fuel precedence can_assign c₂
  check_target can_assign c₃
