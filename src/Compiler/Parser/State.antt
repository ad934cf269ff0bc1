-- ===== src/Compiler/Parser/State.antt =====
-- The state of src/compiler/bytecode/bytecode_compiler.h. A trie is an association list, the last put
-- first, and an array that is filled from the front the list of what it holds, the last first. The scanner
-- does not see the compiler, so that it is the list of the tokens it has still to give, each with the text
-- from its first byte on.
use lox_vm.Prelude.{
  ◌≡◌, refl, ℕ, String, Bool, false, List, [], ◌∷◌, Option, none, some, if◌then◌else◌,
}
use lox_vm.Compiler.Scanner.Tokens.{Token, token_no_token}
use lox_vm.Compiler.Chunk.{Chunk, init_chunk}

-- `error` is a call of report_error, which ends the program. A fault is behaviour that C leaves undefined or
-- a failed assertion. Recursion that is given too little fuel is unfinished.
pub data Result {ℓ} (A : Type ℓ) : Type ℓ where
  ok : A → Result A
  error : String → Result A
  fault : Result A
  unfinished : Result A

infixl 1 ◌>>=◌
abbrev pub ◌>>=◌ {ℓ ℓ'} :
    {X : Type ℓ} {Y : Type ℓ'} (outcome : Result X) (rest : X → Result Y) → Result Y
unfinished >>= rest = unfinished
fault >>= rest = fault
error message >>= rest = error message
ok x >>= rest = rest x

abbrev pub checked {ℓ} : {A : Type ℓ} → Option A → Result A
checked none = fault
checked (some a) = ok a

-- Two continuations may be joined before they run.
module _ {ℓ} {X Y Z : Type ℓ} (second : X → Result Y) (third : Y → Result Z) where
  pub joined_rest :
      (outcome : Result X) → (outcome >>= second >>= third) ≡ (outcome >>= λ x. second x >>= third)
  joined_rest unfinished = refl
  joined_rest fault = refl
  joined_rest (error message) = refl
  joined_rest (ok x) = refl

pub data ScopeType : Type 0 where
  scope_function scope_package : ScopeType

pub data ExportedSymbolType : Type 0 where
  exported_function exported_struct exported_var : ExportedSymbolType

pub record ExportedSymbol : Type 0 where
  pub type : ExportedSymbolType
  pub constant_identifier : ℕ
  pub is_const : Bool

pub record StructDefinition : Type 0 where
  pub name : ℕ
  pub field_names : List ℕ

-- A package as far as its symbols are read: `value` is its word as a constant.
pub record Symbols : Type 0 where
  pub value : ℕ
  pub exported_symbols : List (List ℕ × ExportedSymbol)
  pub struct_definitions : List (List ℕ × StructDefinition)

pub record Local : Type 0 where
  pub name : Token
  pub depth : ℕ

-- A package is its word.
pub record FunctionCall : Type 0 where
  pub function_name : List ℕ
  pub is_inlined : Bool
  pub called_package : ℕ
  pub call_bytecode_index : ℕ

-- A function as it is compiled.
pub record Compiled : Type 0 where
  pub name : List ℕ
  pub n_arguments : ℕ
  pub n_locals : ℕ
  pub chunk : Chunk
  pub function_calls : List FunctionCall
  pub local_numbers_to_names : List (ℕ × List ℕ)

pub record Compiler : Type 0 where
  pub compiling_package : Symbols
  pub current_function : Compiled
  pub current_scope : ScopeType
  pub tokens : List Token
  pub current : Token
  pub previous : Token
  pub locals : List Local
  pub local_depth : ℕ
  pub max_locals : ℕ
  pub monitor_numbers_entered : List ℕ
  pub last_monitor_allocated_number : ℕ
  pub current_function_call_name : List ℕ
  pub compiling_new_local_set_body : Option ℕ
  pub compiling_extermal_symbol_call : Bool
  pub package_of_external_symbol : Option Symbols
  pub compiling_parallel_call : Bool
  pub compiling_inline_call : Bool
  pub compiling_set_operation : Bool
  pub compiling_set_array_element_operation : Bool
  pub function_calls : List FunctionCall
  pub function_call_list : List (List ℕ)
  pub defined_functions : List (List ℕ × ℕ)
  pub const_global_variables : List (List ℕ)

-- What the parser calls that is not part of it: `strtod` of the C library on a text, the order and the
-- conversion of doubles, which are the words that hold them, the pool of strings, the words of objects, the
-- keys that a trie takes for the same, and the packages that are compiled, those on demand among them.
pub record Services : Type 0 where
  pub strtod : List ℕ → ℕ
  pub double_at_most : ℕ → ℕ → Bool
  pub double_equals : ℕ → ℕ → Bool
  pub double_to_int : ℕ → ℕ
  pub string_value : List ℕ → ℕ
  pub function_value : Compiled → ℕ
  pub struct_value : StructDefinition → ℕ
  pub same_key : List ℕ → List ℕ → Bool
  pub find_package : List ℕ → Option Symbols

-- The operations of the parser, and its recursive call for a precedence.
abbrev pub Step : Type 0
Step = Compiler → Result Compiler

abbrev pub Parse : Type 0
Parse = ℕ → Step

infixl 1 ◌then◌
abbrev pub ◌then◌ : Step → Step → Step
(f then g) c = f c >>= g

unfoldable pub alloc_function : Compiled
alloc_function = record {
  name = [];
  n_arguments = 0;
  n_locals = 0;
  chunk = init_chunk;
  function_calls = [];
  local_numbers_to_names = [];
}

unfoldable pub first_local : Local
first_local = record {
  name = record { type = token_no_token; start = []; length = 0; line = 0 };
  depth = 0;
}

-- A compiler of a function shares the package, the scanner and the parser with its parent, and takes the
-- name of the function from the previous token.
unfoldable pub init_compiler : ScopeType → Symbols → List ℕ → List Token → Token → Token → Compiler
unfolding alloc_function first_local
init_compiler scope symbols name tokens current previous = record {
  compiling_package = symbols;
  current_function = record alloc_function { name = name };
  current_scope = scope;
  tokens = tokens;
  current = current;
  previous = previous;
  locals = first_local ∷ [];
  local_depth = 0;
  max_locals = 0;
  monitor_numbers_entered = [];
  last_monitor_allocated_number = 0;
  current_function_call_name = [];
  compiling_new_local_set_body = none;
  compiling_extermal_symbol_call = false;
  package_of_external_symbol = none;
  compiling_parallel_call = false;
  compiling_inline_call = false;
  compiling_set_operation = false;
  compiling_set_array_element_operation = false;
  function_calls = [];
  function_call_list = [];
  defined_functions = [];
  const_global_variables = [];
}
