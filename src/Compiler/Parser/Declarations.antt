-- ===== src/Compiler/Parser/Declarations.antt =====
-- The handlers of declarations, and the compilation of a package.
use lox_vm.Prelude.{ℕ, zero, suc, ◌+◌, Bool, true, false, none, some, List, [], ◌∷◌, if◌then◌else◌}
use lox_vm.Shared.Bytecode.{op_constant, op_eof, opcode}
use lox_vm.Compiler.Scanner.Tokens.{
  Token, token_open_paren, token_close_paren, token_open_brace, token_close_brace, token_comma,
  token_semicolon, token_identifier, token_string, token_fun, token_var, token_eof, token_struct,
  token_const, token_pub, token_use, token_parallel, token_sync, token_inline,
}
use lox_vm.Compiler.Parser.State.{
  Result, ok, fault, unfinished, ◌>>=◌, scope_function, scope_package, exported_function,
  exported_struct, StructDefinition, Symbols, Compiler, Services, Step, ◌then◌, first_local,
  init_compiler,
}
use lox_vm.Compiler.Parser.Tokens.{report_error, advance_compiler, check, match_token, consume}
use lox_vm.Compiler.Parser.Emit.{
  text, emit_bytecode, emit_bytecodes, add_constant, add_string_constant, emit_constant,
  define_global_variable, emit_empty_return,
}
use lox_vm.Compiler.Parser.Scopes.{begin_scope, add_local_variable}
use lox_vm.Compiler.Parser.Monitors.{emit_enter_monitor, emit_exit_all_monitors}
use lox_vm.Compiler.Parser.Variables.{find_trie, when}
use lox_vm.Compiler.Parser.Statements.{
  on_match, expression_statement, add_exported_symbol, var_declaration, block, statement_rules,
}

-- the names of the fields, in the pool of strings
unfoldable pub field_values : Services → List Token → List ℕ
field_values services [] = []
field_values services (field ∷ fields) =
    services.string_value (text field) ∷ field_values services fields

-- A struct has an array of 256 fields while it is compiled.
unfoldable pub struct_fields : ℕ → ℕ → Compiler → Result (List Token × Compiler)
unfolding consume match_token
struct_fields zero room compiler = unfinished
struct_fields (suc fuel) zero compiler = fault
struct_fields (suc fuel) (suc room) compiler = do
  c₁ ← consume token_identifier "Expect field in struct declaration" compiler
  c₂ ← consume token_semicolon "Expect ';' after struct field" c₁
  (closed, c₃) ← match_token token_close_brace c₂
  elim closed [
    | true ↦ ok (c₁.previous ∷ [], c₃)
    | false ↦ struct_fields fuel room c₃ >>= λ r. ok (c₁.previous ∷ r.0, r.1)
  ]

unfoldable pub end_compiler : Step
unfolding emit_empty_return
end_compiler compiler = emit_empty_return compiler >>= λ c. ok (record c {
  current_function = record c.current_function {
    function_calls = c.function_calls;
    n_locals = c.max_locals;
  };
})

unfoldable pub parameters : ℕ → Step
unfolding consume add_local_variable on_match
parameters zero compiler = unfinished
parameters (suc fuel) compiler = do
  let f = compiler.current_function
  c₁ ←
      consume token_identifier "Expect variable name in current_function arguments."
        (record compiler { current_function = record f { n_arguments = f.n_arguments + 1 } })
  (number, c₂) ← add_local_variable c₁.previous c₁
  on_match token_comma (parameters fuel) ok c₂

unfoldable pub function_parameters : ℕ → Step
unfolding check parameters consume
function_parameters rounds compiler =
    elim (check token_close_paren compiler) [
      | true ↦ ok compiler
      | false ↦ parameters rounds compiler
    ]
    >>= consume token_close_paren "Expected ')' after current_function args"

-- `use "path";`, of which only the tokens are read here: the packages are those that can be found.
unfoldable pub import_packages : ℕ → Step
unfolding on_match consume
import_packages zero compiler = unfinished
import_packages (suc fuel) compiler =
    on_match token_use
      (consume token_string "Expect import path after use"
        then consume token_semicolon "Expect ';' after use"
        then import_packages fuel)
      ok compiler

module _ (services : Services) (rounds : ℕ) where
  unfoldable pub struct_declaration : Bool → Bool → Step
  unfolding consume find_trie report_error struct_fields field_values add_constant emit_constant
      define_global_variable add_exported_symbol
  struct_declaration is_public is_const compiler = do
    c₁ ← consume token_identifier "Expect struct name" compiler
    let name = c₁.previous
    let symbols = c₁.compiling_package
    c₂ ← elim (find_trie services symbols.struct_definitions (text name)) [
      | some _ ↦ report_error "Struct already defined"
      | none ↦ consume token_open_brace "Expect '{' after struct declaration" c₁
    ]
    (fields, c₃) ← struct_fields rounds 256 c₂
    let definition : StructDefinition = record {
      name = services.string_value (text name);
      field_names = field_values services fields;
    }
    let c₄ : Compiler = record c₃ {
      compiling_package = record symbols {
        struct_definitions = (text name, definition) ∷ symbols.struct_definitions;
      };
    }
    when is_public
        (λ c. do
          (constant, d₁) ← add_constant definition.name c
          d₂ ← emit_constant (services.struct_value definition) d₁
          d₃ ← define_global_variable constant d₂
          add_exported_symbol services rounds
              (record {
                type = exported_struct;
                constant_identifier = constant;
                is_const = is_const;
              })
              name d₃)
        c₄

  unfoldable pub parallel_declaration : Step
  unfolding expression_statement
  parallel_declaration compiler =
      expression_statement services rounds (record compiler { compiling_parallel_call = true })
      >>= λ c. ok (record c { compiling_parallel_call = false })

  unfoldable pub inline_declaration : Step
  unfolding report_error expression_statement
  inline_declaration compiler = elim compiler.current_scope [
    | scope_package ↦ report_error "Cannot inline in top level code"
    | scope_function ↦
        expression_statement services rounds (record compiler { compiling_inline_call = true })
        >>= λ c. ok (record c { compiling_inline_call = false })
  ]

  module _ (statement declaration : Step) where
    -- The compiler of the function, after its end. It reads on where its parent stood.
    unfoldable pub function_body : Bool → Compiler → Result Compiler
    unfolding init_compiler begin_scope consume function_parameters emit_enter_monitor block
        emit_exit_all_monitors end_compiler emit_bytecode
    function_body is_protected parent =
        let inner =
          init_compiler scope_function parent.compiling_package (text parent.previous) parent.tokens
            parent.current parent.previous in
        (consume token_open_paren "Expect '(' after current_function name."
            then function_parameters rounds
            then consume token_open_brace "Expect '{' after current_function parenthesis."
            then when is_protected emit_enter_monitor
            then block services rounds statement declaration
            then emit_exit_all_monitors
            then end_compiler
            then emit_bytecode (opcode op_eof))
          (begin_scope inner)

    unfoldable pub function : Bool → Step
    unfolding function_body add_constant emit_bytecodes
    function is_protected parent = do
      inner ← function_body is_protected parent
      let compiled = inner.current_function
      (constant, c) ← add_constant (services.function_value compiled) (record parent {
        compiling_package = inner.compiling_package;
        tokens = inner.tokens;
        current = inner.current;
        previous = inner.previous;
        defined_functions =
            (compiled.name, services.function_value compiled) ∷ parent.defined_functions;
      })
      emit_bytecodes (opcode op_constant) constant c

    unfoldable pub function_declaration : Bool → Bool → Step
    unfolding report_error consume add_string_constant function define_global_variable
        add_exported_symbol
    function_declaration is_public is_protected compiler = elim compiler.current_scope [
      | scope_function ↦ report_error "Nested functions are not allowed"
      | scope_package ↦ do
        c₁ ← consume token_identifier "Expected current_function name after fun keyword." compiler
        let name = c₁.previous
        (constant, c₂) ← add_string_constant services name c₁
        c₃ ← function is_protected c₂
        c₄ ← define_global_variable constant c₃
        when is_public
            (add_exported_symbol services rounds
              (record {
                type = exported_function;
                constant_identifier = constant;
                is_const = false;
              })
              name)
            c₄
    ]

    unfoldable pub declaration_rules : Step
    unfolding match_token on_match var_declaration struct_declaration parallel_declaration
        inline_declaration function_declaration
    declaration_rules compiler = do
      (is_public, c₁) ← match_token token_pub compiler
      (is_const, c₂) ← match_token token_const c₁
      on_match token_var (var_declaration services rounds is_public is_const)
          (on_match token_struct (struct_declaration is_public is_const) (
            on_match token_parallel parallel_declaration (
              on_match token_inline inline_declaration (
                on_match token_fun
                  (on_match token_sync (function_declaration is_public true)
                    (function_declaration is_public false))
                  statement))))
          c₂

unfoldable mutual
  unfolding statement_rules declaration_rules

  pub statement : Services → ℕ → Step
  statement services zero compiler = unfinished
  statement services (suc fuel) compiler =
      statement_rules services fuel (statement services fuel) (declaration services fuel) compiler

  pub declaration : Services → ℕ → Step
  declaration services zero compiler = unfinished
  declaration services (suc fuel) compiler =
      declaration_rules services fuel (statement services fuel) (declaration services fuel) compiler

-- The loop over the declarations of a package.
unfoldable pub declarations : Services → ℕ → Step
unfolding on_match declaration
declarations services zero compiler = unfinished
declarations services (suc fuel) compiler =
    on_match token_eof ok (declaration services fuel then declarations services fuel) compiler

-- The compiler of a package, whose tokens the scanner gives, and its end.
unfoldable pub start_compiling : Services → ℕ → Symbols → List Token → Result Compiler
unfolding init_compiler first_local advance_compiler import_packages declarations emit_bytecode
start_compiling services fuel symbols tokens =
    let no_token = first_local.name in
    (advance_compiler
        then import_packages fuel
        then declarations services fuel
        then emit_bytecode (opcode op_eof))
      (init_compiler scope_package symbols [] tokens no_token no_token)

unfoldable pub compile_bytecode : Services → ℕ → Symbols → List Token → Result Compiler
unfolding start_compiling end_compiler
compile_bytecode services fuel symbols tokens =
    start_compiling services fuel symbols tokens >>= end_compiler
