-- ===== src/Compiler/Parser/Variables.antt =====
-- The handlers of names: variables, of a function or of a package, calls, structs and fields. `parse` is
-- the recursive call of parse_precedence, and `rounds` bounds the loops over lists that commas separate.
use lox_vm.Prelude.{
  ℕ, zero, suc, ◌+◌, ◌-◌, Bool, true, false, not, ◌&&◌, ◌||◌, List, [], ◌∷◌, Option, none, some,
  ◌==◌, length, if◌then◌else◌,
}
use lox_vm.Shared.Bytecode.{
  Bytecode, op_enter_package, op_exit_package, op_call, op_initialize_struct, op_set_struct_field,
  op_get_struct_field, op_set_local, op_get_local, op_set_global, op_get_global,
  op_set_array_element, op_get_array_element, opcode,
}
use lox_vm.Compiler.Scanner.Tokens.{
  Token, token_comma, token_open_paren, token_close_paren, token_close_brace, token_identifier,
  token_equal,
}
use lox_vm.Compiler.Parser.State.{
  Result, ok, fault, unfinished, ◌>>=◌, ExportedSymbolType, exported_function, exported_struct,
  exported_var, ExportedSymbol, StructDefinition, Symbols, FunctionCall, Compiler, Services, Step,
  Parse, ◌then◌,
}
use lox_vm.Compiler.Parser.Tokens.{report_error, advance_compiler, check, match_token, consume}
use lox_vm.Compiler.Parser.Emit.{
  current_chunk, text, emit_bytecode, emit_bytecodes, add_constant, add_string_constant,
  emit_package_constant,
}
use lox_vm.Compiler.Parser.Scopes.{resolve_local_variable}
use lox_vm.Compiler.Parser.Rules.{prec_assignment}

unfoldable pub find_trie {ℓ} : {A : Type ℓ} → Services → List (List ℕ × A) → List ℕ → Option A
find_trie services [] key = none
find_trie services ((k, a) ∷ entries) key =
    let rest = find_trie services entries key in if services.same_key k key then some a else rest

unfoldable pub contains_trie : Services → List (List ℕ) → List ℕ → Bool
contains_trie services [] key = false
contains_trie services (k ∷ keys) key = services.same_key k key || contains_trie services keys key

unfoldable pub get_exported_symbol : Services → Symbols → Token → Result ExportedSymbol
unfolding find_trie report_error
get_exported_symbol services symbols name =
    elim (find_trie services symbols.exported_symbols (text name)) [
      | none ↦ report_error "Variable exported by external_package not found"
      | some symbol ↦ ok symbol
    ]

unfoldable pub get_struct_definition : Services → Symbols → Token → Option StructDefinition
unfolding find_trie
get_struct_definition services symbols name =
    find_trie services symbols.struct_definitions (text name)

unfoldable pub is_const_variable : Services → Compiler → Token → Option Symbols → Result Bool
unfolding get_exported_symbol contains_trie
is_const_variable services compiler name none =
    ok (contains_trie services compiler.const_global_variables (text name))
is_const_variable services compiler name (some external) =
    get_exported_symbol services external name >>= λ symbol. ok symbol.is_const

-- The package of the name before, which is compiled when it was not.
unfoldable pub load_package : Services → Compiler → Result (Symbols × Compiler)
unfolding report_error emit_package_constant
load_package services compiler = elim (services.find_package (text compiler.previous)) [
  | none ↦ report_error "Cannot find package"
  | some symbols ↦ emit_package_constant symbols.value compiler >>= λ c. ok (symbols, c)
]

unfoldable pub create_current_function_call : Compiler → FunctionCall
create_current_function_call compiler = record {
  function_name = compiler.current_function_call_name;
  is_inlined = compiler.compiling_inline_call;
  called_package = elim compiler.package_of_external_symbol [
    | none ↦ compiler.compiling_package.value
    | some symbols ↦ symbols.value
  ];
  call_bytecode_index = (current_chunk compiler).in_use - 3;
}

unfoldable pub add_current_function_call : Compiler → Compiler
unfolding create_current_function_call
add_current_function_call compiler = record compiler {
  function_calls = create_current_function_call compiler ∷ compiler.function_calls;
}

-- `op` is between an OP_ENTER_PACKAGE and an OP_EXIT_PACKAGE when the symbol is external.
abbrev pub in_package : Bool → Step → Step
in_package external f compiler = elim external [
  | true ↦
      (emit_bytecode (opcode op_enter_package) then f then emit_bytecode (opcode op_exit_package))
        compiler
  | false ↦ f compiler
]

-- The number of a variable, before a constant is added for its name.
abbrev pub is_being_defined : Option ℕ → Option ℕ → Bool
is_being_defined (some number) (some defined) = number == defined
is_being_defined _ _ = false

abbrev pub set_op_code : Bool → Bool → Bytecode
set_op_code true is_local = if is_local then op_set_local else op_set_global
set_op_code false is_local = if is_local then op_get_local else op_get_global

abbrev is_function_symbol : ExportedSymbolType → Bool
is_function_symbol exported_function = true
is_function_symbol exported_struct = false
is_function_symbol exported_var = false

abbrev is_var_symbol : ExportedSymbolType → Bool
is_var_symbol exported_function = false
is_var_symbol exported_struct = false
is_var_symbol exported_var = true

-- The symbol of another package: before an opening parenthesis a function, else a variable.
unfoldable pub external_identifier : Services → Symbols → Token → Compiler → Result (ℕ × Compiler)
unfolding get_exported_symbol check report_error
external_identifier services external name compiler =
    get_exported_symbol services external name >>= λ symbol.
    let expected : Bool =
      if check token_open_paren compiler
      then is_function_symbol symbol.type
      else is_var_symbol symbol.type in
    if expected
    then ok (
      symbol.constant_identifier,
      record compiler {
        package_of_external_symbol = some external;
        compiling_extermal_symbol_call = true;
      },
    )
    else report_error "Exported type is invalid in this context"

-- The operand of the instruction: the number of the local, or a new constant of the name. That of an external
-- symbol comes later.
unfoldable pub own_identifier :
    Services → Token → Option ℕ → Option Symbols → Compiler → Result (Option ℕ × Compiler)
unfolding add_string_constant
own_identifier services name (some number) external compiler = ok (some number, compiler)
own_identifier services name none none compiler =
    add_string_constant services name compiler >>= λ r. ok (some r.0, r.1)
own_identifier services name none (some external) compiler = ok (none, compiler)

unfoldable pub variable_identifier :
    Services → Token → Option Symbols → Option ℕ → Compiler → Result (ℕ × Compiler)
unfolding external_identifier
variable_identifier services name external (some identifier) compiler = ok (identifier, compiler)
variable_identifier services name (some external) none compiler =
    external_identifier services external name compiler
variable_identifier services name none none compiler = fault

-- The checks on an assignment, and the flags that it sets.
unfoldable pub check_set : Bool → Bool → Bool → Step
unfolding report_error
check_set false is_const is_array compiler = ok compiler
check_set true true is_array compiler =
    report_error "Cannot set a value_node to a declared const variable"
check_set true false true compiler =
    ok (record compiler { compiling_set_array_element_operation = true })
check_set true false false compiler =
    if compiler.compiling_set_operation
    then report_error "Assignments cannot be used value_as expressions"
    else ok (record compiler { compiling_set_operation = true })

abbrev pub is_some {ℓ} : {A : Type ℓ} → Option A → Bool
is_some none = false
is_some (some _) = true

-- `if (test) step`
abbrev pub when : Bool → Step → Step
when true f compiler = f compiler
when false f compiler = ok compiler

module _ (services : Services) (rounds : ℕ) (parse : Parse) where
  unfoldable pub expression : Step
  expression = parse prec_assignment

  -- The rounds of `do { expression } while (match(TOKEN_COMMA))`, and how many there were.
  unfoldable pub expressions : ℕ → Compiler → Result (ℕ × Compiler)
  unfolding expression match_token
  expressions zero compiler = unfinished
  expressions (suc fuel) compiler = do
    c₁ ← expression compiler
    (more, c₂) ← match_token token_comma c₁
    elim more [ true ↦ expressions fuel c₂ >>= λ r. ok (r.0 + 1, r.1) | false ↦ ok (1, c₂) ]

  unfoldable pub struct_initialization : Option Symbols → Step
  unfolding get_struct_definition report_error advance_compiler expressions consume add_constant
      emit_bytecodes
  struct_initialization external compiler =
      let symbols : Symbols = elim external [
        | none ↦ compiler.compiling_package
        | some symbols ↦ symbols
      ] in
      elim (get_struct_definition services symbols compiler.previous) [
        | none ↦ report_error "Struct not defined"
        | some definition ↦ do
          c₁ ← advance_compiler compiler
          (n_fields, c₂) ← expressions rounds c₁
          c₃ ← consume token_close_brace "Expect '}' after struct initialization" c₂
          elim (n_fields == length definition.field_names) [
            | true ↦ add_constant (services.struct_value definition) c₃ >>= λ r.
                emit_bytecodes (opcode op_initialize_struct) r.0 r.1
            | false ↦
                report_error
                  "Struct initialization immediate of args doest match with struct_definition"
          ]
      ]

  unfoldable pub function_call_number_arguments : Compiler → Result (ℕ × Compiler)
  unfolding check expressions consume
  function_call_number_arguments compiler = do
    (n_args, c₁) ← elim (check token_close_paren compiler) [
      | true ↦ ok (0, compiler)
      | false ↦ expressions rounds compiler
    ]
    c₂ ← consume token_close_paren "Expect ')' after current_function call" c₁
    ok (n_args, c₂)

  -- The package of a call of an external function is a constant before the call.
  unfoldable pub enter_package_of_call : Step
  unfolding emit_package_constant emit_bytecode
  enter_package_of_call compiler = elim compiler.package_of_external_symbol [
    | none ↦ fault
    | some symbols ↦
        (emit_package_constant symbols.value then emit_bytecode (opcode op_enter_package)) compiler
  ]

  unfoldable pub function_call : Bool → Step
  unfolding function_call_number_arguments enter_package_of_call emit_bytecodes emit_bytecode
      add_current_function_call
  function_call can_assign compiler = do
    (n_args, c₁) ← function_call_number_arguments compiler
    let external = c₁.compiling_extermal_symbol_call
    c₂ ← when external enter_package_of_call c₁
    c₃ ← emit_bytecodes (opcode op_call) n_args c₂
    c₄ ← emit_bytecode (if c₃.compiling_parallel_call then 1 else 0) c₃
    when external
        (λ c. emit_bytecode (opcode op_exit_package) c >>= λ d.
          ok (record d {
            package_of_external_symbol = none;
            compiling_extermal_symbol_call = false;
          }))
        (record (add_current_function_call c₄) { compiling_inline_call = false })

  unfoldable pub dot : Bool → Step
  unfolding consume add_string_constant match_token expression emit_bytecodes
  dot can_assign compiler = do
    c₁ ← consume token_identifier "Expect property name after '.'" compiler
    (field, c₂) ← add_string_constant services c₁.previous c₁
    (is_set, c₃) ← elim can_assign [ true ↦ match_token token_equal c₂ | false ↦ ok (false, c₂) ]
    elim is_set [
      | true ↦ (expression then emit_bytecodes (opcode op_set_struct_field) field) c₃
      | false ↦ emit_bytecodes (opcode op_get_struct_field) field c₃
    ]

  unfoldable pub named_variable : Token → Bool → Option Symbols → Bool → Step
  unfolding resolve_local_variable report_error is_const_variable match_token own_identifier
      variable_identifier check_set expression emit_bytecodes emit_bytecode
  named_variable name can_assign external is_array compiler =
      let number = resolve_local_variable compiler name in
      elim (is_being_defined number compiler.compiling_new_local_set_body) [
        | true ↦ report_error "Variable is not yet defined"
        | false ↦ do
          is_const ← is_const_variable services compiler name external
          (is_set, c₁) ← elim can_assign [
            | true ↦ match_token token_equal compiler
            | false ↦ ok (false, compiler)
          ]
          (own, c₂) ← own_identifier services name number external c₁
          c₃ ← check_set is_set is_const is_array c₂
          (identifier, c₄) ← variable_identifier services name external own c₃
          c₅ ← elim is_set [ true ↦ expression c₄ | false ↦ ok c₄ ]
          c₆ ←
              in_package (is_some external)
                (emit_bytecodes (opcode (set_op_code (is_set && not is_array) (is_some number)))
                  identifier)
                c₅
          when is_array
              (emit_bytecode
                (opcode (if is_set then op_set_array_element else op_get_array_element)))
              c₆
      ]
