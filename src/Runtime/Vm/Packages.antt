-- ===== src/Runtime/Vm/Packages.antt =====
-- Packages of src/runtime/vm.c: they are initialised by running their code when they are first entered.
use lox_vm.Prelude.{ℕ, [], ◌∷◌}
use lox_vm.Shared.Values.{as_object}
use lox_vm.Runtime.Vm.Outcome.{
  Outcome, ok, panic, fault, ◌>>=◌, access, cyclic_package, unexpected_package_state, package_error,
  unhandled_bytecode,
}
use lox_vm.Runtime.Vm.Machine.{
  find_key, put_key, package_object, PackageState, pending_compilation, pending_initialization,
  initializing, ready_to_use, CallFrame, VmThread, Services,
}
use lox_vm.Runtime.Vm.Stack.{pop_stack_vm}
use lox_vm.Runtime.Vm.Frames.{
  get_current_frame, set_current_frame, function_at, setup_call_frame_function,
  restore_prev_call_frame,
}

abbrev pub set_package_state : PackageState → ℕ → VmThread → Outcome VmThread
set_package_state state id thread = do
  current ← access (find_key thread.packages id)
  ok (record thread { packages = put_key thread.packages id (record current { state = state }) })

abbrev pub enter_current : ℕ → VmThread → VmThread
enter_current id thread = record thread {
  package_stack = thread.current_package ∷ thread.package_stack;
  current_package = id;
}

unfoldable pub setup_enter_package : ℕ → VmThread → Outcome VmThread
unfolding get_current_frame
setup_enter_package id thread = do
  prev_frame ← get_current_frame thread
  entered ← access (find_key thread.packages id)
  ok (
      enter_current id (record thread {
        frames = record prev_frame { function = entered.main_function } ∷ thread.frames;
      }))

unfoldable pub restore_prev_package_execution : VmThread → Outcome VmThread
unfolding restore_prev_call_frame
restore_prev_package_execution thread = elim (thread.package_stack) [
  | [] ↦ fault
  | id ∷ ids ↦ (do
    (last, thread) ←
        restore_prev_call_frame (record thread { current_package = id; package_stack = ids })
    ok thread)
]

-- The frame that was left still stands in the array, behind the frames in use. If it was the last frame,
-- that place holds what an earlier frame left or nothing, and to run on from there is a fault.
abbrev pub frame_to_leave : VmThread → Outcome CallFrame
frame_to_leave thread = elim (thread.frames) [
  | [] ↦ fault
  | _ ∷ [] ↦ fault
  | left ∷ _ ∷ _ ↦ ok left
]

-- The place in the code is that of the frame that was left.
unfoldable pub exit_package : VmThread → Outcome VmThread
unfolding get_current_frame restore_prev_package_execution
exit_package thread = do
  left ← frame_to_leave thread
  thread ← restore_prev_package_execution thread
  frame ← get_current_frame thread
  ok (set_current_frame thread (record frame { code = left.code; pc = left.pc }))

module _ (services : Services) where
  unfoldable pub setup_package_execution : ℕ → VmThread → Outcome VmThread
  unfolding function_at setup_call_frame_function
  setup_package_execution id thread = do
    entered ← access (find_key thread.packages id)
    let thread = enter_current id thread
    elim (entered.state) [
      | ready_to_use ↦ ok thread
      | _ ↦ (do
        main ← function_at thread entered.main_function
        setup_call_frame_function entered.main_function main (record thread {
          packages =
              put_key thread.packages id
                (record entered { global_variables = services.setup_native_functions [] });
        }))
    ]

  -- The loop that runs a package ends with an error at a number that is no instruction.
  abbrev pub nested : Outcome VmThread → Outcome VmThread
  nested (panic unhandled_bytecode) = panic package_error
  nested result = result

  -- `run` is the loop of the interpreter.
  module _ (run : VmThread → Outcome VmThread) where
    unfoldable pub initialize_package : ℕ → VmThread → Outcome VmThread
    unfolding setup_package_execution restore_prev_package_execution
    initialize_package id thread = do
      thread ← setup_package_execution id thread
      thread ← set_package_state initializing id thread
      thread ← nested (run thread)
      thread ← set_package_state ready_to_use id thread
      restore_prev_package_execution thread

    unfoldable pub enter_package : VmThread → Outcome VmThread
    unfolding pop_stack_vm as_object initialize_package setup_enter_package
    enter_package thread = do
      (value, thread) ← pop_stack_vm thread
      (elim (access (find_key thread.heap (as_object value))) [
        | ok (package_object id) ↦ (do
          entered ← access (find_key thread.packages id)
          thread ← (elim (entered.state) [
            | ready_to_use ↦ ok thread
            | initializing ↦ panic cyclic_package
            | pending_initialization ↦ initialize_package id thread
            | pending_compilation ↦ panic unexpected_package_state
          ])
          setup_enter_package id thread)
        | _ ↦ fault
      ])
