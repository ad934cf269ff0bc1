-- ===== src/Compiler/Parser/Scopes.antt =====
-- The scopes of local variables. The number of a local is its place from the first, so the locals
-- that are younger than one do not change it.
use lox_vm.Prelude.{
  ℕ, zero, suc, ◌+◌, ◌-◌, max, Bool, true, false, not, List, [], ◌∷◌, Option, none, some, ◌==◌, ltb,
  length, list_eq, if◌then◌else◌,
}
use lox_vm.Compiler.Scanner.Tokens.{Token}
use lox_vm.Compiler.Parser.State.{Result, ok, fault, ◌>>=◌, Local, Compiler}
use lox_vm.Compiler.Parser.Tokens.{report_error}
use lox_vm.Compiler.Parser.Emit.{text}

unfoldable pub begin_scope : Compiler → Compiler
begin_scope compiler = record compiler { local_depth = compiler.local_depth + 1 }

-- The loop of `end_scope`: the locals that are deeper than the scope are dropped.
unfoldable pub drop_deeper : ℕ → List Local → List Local
drop_deeper depth [] = []
drop_deeper depth (local ∷ locals) =
    let rest = drop_deeper depth locals in if ltb depth local.depth then rest else local ∷ locals

unfoldable pub end_scope : Compiler → Compiler
unfolding drop_deeper
end_scope compiler =
    let depth = compiler.local_depth - 1 in
    record compiler { local_depth = depth; locals = drop_deeper depth compiler.locals }

unfoldable pub identifiers_equal : Token → Token → Bool
identifiers_equal a b = if not (a.length == b.length) then false else list_eq (text a) (text b)

-- The loop from the last local to the first; `none` is -1.
unfoldable pub resolve_in : List Local → Token → Option ℕ
unfolding identifiers_equal
resolve_in [] name = none
resolve_in (local ∷ locals) name =
    let rest = resolve_in locals name in
    if identifiers_equal local.name name then some (length locals) else rest

unfoldable pub resolve_local_variable : Compiler → Token → Option ℕ
unfolding resolve_in
resolve_local_variable compiler = resolve_in compiler.locals

unfoldable pub defined_in : List Local → Token → Bool
unfolding identifiers_equal
defined_in [] name = false
defined_in (local ∷ locals) name =
    let rest = defined_in locals name in if identifiers_equal local.name name then true else rest

unfoldable pub is_variable_already_defined : Compiler → Token → Bool
unfolding defined_in
is_variable_already_defined compiler = defined_in compiler.locals

-- The array has room for 255 locals, and a write behind it is a fault. A byte names the local.
unfoldable pub add_local : Token → Compiler → Result (ℕ × Compiler)
add_local name compiler =
    let number = length compiler.locals in
    if ltb number 255
    then ok (
      number,
      record compiler {
        locals = record { name = name; depth = compiler.local_depth } ∷ compiler.locals;
        max_locals = max compiler.max_locals (number + 1);
        current_function = record compiler.current_function {
          local_numbers_to_names =
              (number, text name) ∷ compiler.current_function.local_numbers_to_names;
        };
      },
    )
    else fault

-- `none` is -1, at the top level; else the local is new.
unfoldable pub add_local_variable : Token → Compiler → Result (Option ℕ × Compiler)
unfolding is_variable_already_defined add_local report_error
add_local_variable name compiler = elim compiler.local_depth [
  | zero ↦ ok (none, compiler)
  | suc _ ↦
      if is_variable_already_defined compiler name
      then report_error "variable already defined"
      else (add_local name compiler >>= λ r. ok (some r.0, r.1))
]
