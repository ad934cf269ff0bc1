-- ===== src/Compiler/Parser/Monitors.antt =====
-- The monitors that a function enters, one for each `sync`, the last first.
use lox_vm.Prelude.{ℕ, ◌+◌, List, [], ◌∷◌, leb, if◌then◌else◌}
use lox_vm.Shared.Bytecode.{op_enter_monitor, op_exit_monitor, opcode}
use lox_vm.Compiler.Parser.State.{ok, fault, scope_function, scope_package, Step, ◌then◌}
use lox_vm.Compiler.Parser.Tokens.{report_error}
use lox_vm.Compiler.Parser.Emit.{emit_bytecodes}

abbrev pub max_monitors_per_function : ℕ
max_monitors_per_function = 8

unfoldable pub emit_enter_monitor : Step
unfolding report_error emit_bytecodes
emit_enter_monitor compiler =
    let number = compiler.last_monitor_allocated_number in
    elim compiler.current_scope [
      | scope_package ↦ report_error "Only sync can be called at a function level"
      | scope_function ↦
          if leb max_monitors_per_function number
          then report_error "Max monitors in function reached"
          else emit_bytecodes (opcode op_enter_monitor) number (record compiler {
            last_monitor_allocated_number = number + 1;
            monitor_numbers_entered = number ∷ compiler.monitor_numbers_entered;
          })
    ]

unfoldable pub emit_exit_monitor : Step
unfolding emit_bytecodes
emit_exit_monitor compiler = elim compiler.monitor_numbers_entered [
  | [] ↦ fault
  | number ∷ entered ↦
      emit_bytecodes (opcode op_exit_monitor) number
        (record compiler { monitor_numbers_entered = entered })
]

unfoldable pub emit_exits : List ℕ → Step
unfolding emit_bytecodes
emit_exits [] compiler = ok compiler
emit_exits (number ∷ numbers) compiler =
    (emit_bytecodes (opcode op_exit_monitor) number then emit_exits numbers) compiler

-- The monitors stay entered.
unfoldable pub emit_exit_all_monitors : Step
unfolding emit_exits
emit_exit_all_monitors compiler = emit_exits compiler.monitor_numbers_entered compiler
