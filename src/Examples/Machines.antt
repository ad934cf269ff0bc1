-- ===== src/Examples/Machines.antt =====
-- The virtual machine and its values at concrete inputs.
use lox_vm.Prelude.{
  ℕ, ◌+◌, ◌-◌, ◌*◌, ◌^◌, ◌≤◌, ◌<◌, ◌≡◌, refl, true, false, List, [], ◌∷◌, arith, replicate, min,
}
use lox_vm.Shared.Values.{as_number, is_bool, is_nil, is_number, is_object, as_object, get_lox_type}
use lox_vm.Shared.Values.Classes.{
  classes_exclusive, indicator, read_as-box, read_as, box, number_value, rounded, IsExact,
}
use lox_vm.Shared.Bytecode.{op_negate, op_sub, op_call, op_fast_const_16, op_length}
use lox_vm.Runtime.Vm.Outcome.{Outcome, ok, fault, ◌>>=◌, Holds, returns}
use lox_vm.Runtime.Vm.Machine.{
  FunctionState, func_state_not_profiling, func_state_profiling, FunctionObject, function_object,
  array_object, uncompilable, CallFrame, empty_slot, child, NewThread, VmThread, Services,
  min_calls_to_profile,
}
use lox_vm.Runtime.Vm.Stack.{pop_and_check_object, pop_stack_vm, pop_at, object_type}
use lox_vm.Runtime.Vm.Stack.Operands.{operands, below_top}
use lox_vm.Runtime.Vm.Frames.{setup_call_frame_function, return_function, function_at}
use lox_vm.Runtime.Vm.Frames.Counting.{counted, counted-min}
use lox_vm.Runtime.Vm.Frames.Returns.{return-setup, called, map_outcome, frames_and_operands}
use lox_vm.Runtime.Vm.Operators.Refinement.{execute-on_operands, outcome_of, on_operands, sub_op}
use lox_vm.Runtime.Vm.Operators.Numbers.{execute-is_object, as_number-distance, distance}
use lox_vm.Runtime.Vm.Objects.{get_array_element, set_array_element}
use lox_vm.Runtime.Vm.Objects.Arrays.{
  get_array_element-operands, get_array_element-set_array_element,
}
use lox_vm.Runtime.Vm.Calls.{copy_stack_from_esp, try_add_child_to_parent_list}
use lox_vm.Runtime.Vm.Calls.Arguments.{
  copy_stack_from_esp-operands, try_add_child_to_parent_list-TakesOneSlot, TakesOneSlot,
}
use lox_vm.Runtime.Vm.Step.{execute}
use lox_vm.Runtime.Vm.Step.Advance.{stays, Moves}
use lox_vm.Runtime.Vm.Step.Length.{execute-op_length}
use lox_vm.Runtime.Vm.Step.FrameBound.{execute-IsFramed}
use lox_vm.Runtime.Vm.Step.Framed.{IsFramed}

-- A function of two arguments and one local more, whose code loads a constant of two bytes and returns.
abbrev sum_function : FunctionObject
sum_function = record {
  n_arguments = 2;
  n_locals = 3;
  code = 38 ∷ 7 ∷ 1 ∷ 8 ∷ [];
  constants = [];
  state = func_state_not_profiling;
  n_calls = 0;
  profile_written = false;
}

abbrev main_frame : CallFrame
main_frame = record { function = 8; code = 25 ∷ 2 ∷ 0 ∷ 8 ∷ []; pc = 1; slots = 0 }

abbrev main_function : FunctionState → FunctionObject
main_function state = record {
  n_arguments = 0;
  n_locals = 0;
  code = [];
  constants = [];
  state = state;
  n_calls = 0;
  profile_written = false;
}

-- The address of the array is 16 and that of the function 24.
abbrev array_value : ℕ
array_value = 18445618173802708992 + 16

abbrev function_value : ℕ
function_value = 18445618173802708992 + 24

abbrev thread_on : FunctionState → ℕ → List ℕ → VmThread
thread_on state esp stack = record {
  stack = stack;
  esp = esp;
  frames = main_frame ∷ [];
  children = empty_slot ∷ [];
  heap =
      (8, function_object (main_function state))
      ∷ (16, array_object (4 ∷ 5 ∷ 6 ∷ []))
      ∷ (24, function_object sum_function)
      ∷ [];
  packages = [];
  current_package = 0;
  package_stack = [];
  log = [];
}

abbrev services : Services
services = record {
  allocate = λ heap. 32;
  collect_children = λ slots. slots;
  concatenate = λ a b t. ok (a, t);
  native = λ f args t. ok (f, t);
  setup_native_functions = λ globals. globals;
  can_jit_compile = λ f. false;
  try_jit_compile = λ f. uncompilable;
  run_jit_compiled = λ f t. ok t;
}

abbrev no_run : VmThread → Outcome VmThread
no_run t = fault

abbrev two_numbers : VmThread
two_numbers = thread_on func_state_profiling 2 (9 ∷ 4 ∷ 0 ∷ [])

classes_exclusive_example :
    indicator (is_bool 5) + indicator (is_nil 5) + indicator (is_number 5) + indicator (is_object 5)
    ≤ 1
classes_exclusive_example = classes_exclusive 5 (omega arith)

read_as-box_example :
    (read_as (get_lox_type (box (number_value 4096))) (box (number_value 4096))
      ≡ rounded (number_value 4096))
    × (IsExact (number_value 4096) → rounded (number_value 4096) ≡ number_value 4096)
read_as-box_example = read_as-box (number_value 4096) (omega arith)

execute-on_operands_example :
    outcome_of operands (execute services no_run op_sub two_numbers)
    ≡ on_operands op_sub (operands two_numbers)
execute-on_operands_example = execute-on_operands services no_run sub_op two_numbers (omega arith)

execute-is_object_example :
    ((execute services no_run op_negate two_numbers >>= λ u. ok (operands u))
      ≡ ok ((2 ^ 64 - 4) ∷ 9 ∷ []))
    × (is_object (2 ^ 64 - 4) ≡ true)
unfolding below_top
execute-is_object_example =
    execute-is_object services no_run two_numbers 4 (9 ∷ []) (omega arith) refl (omega arith)
      (omega arith)

as_number-distance_example :
    (2 ^ 53 * distance (as_number (2 ^ 53 + 1)) (2 ^ 53 + 1) ≤ 2 ^ 53 + 1)
    × (2 ^ 53 + 1 < 2 ^ 53 → as_number (2 ^ 53 + 1) ≡ 2 ^ 53 + 1)
as_number-distance_example = as_number-distance (2 ^ 53 + 1)

counted-min_example :
    ((counted 60 sum_function).state ≡ func_state_not_profiling)
    × ((counted 60 sum_function).n_calls ≡ min 60 min_calls_to_profile)
counted-min_example = counted-min 60 sum_function refl refl

-- Before a call with two arguments, and in the function when it returns 12.
abbrev before : VmThread
before = thread_on func_state_profiling 4 (1 ∷ function_value ∷ 2 ∷ 3 ∷ 0 ∷ 0 ∷ [])

abbrev inside : FunctionState → VmThread
inside state = record (thread_on state 6 (1 ∷ function_value ∷ 2 ∷ 3 ∷ 0 ∷ 12 ∷ [])) {
  frames = called 24 sum_function before 4 ∷ main_frame ∷ [];
}

return-setup_example :
    (map_outcome (λ w. w.frames) (setup_call_frame_function 24 sum_function before)
      ≡ ok (called 24 sum_function before 0 ∷ main_frame ∷ []))
    × (map_outcome frames_and_operands (return_function (inside func_state_profiling))
        ≡ ok (main_frame ∷ [], 12 ∷ 1 ∷ []))
unfolding below_top function_at
return-setup_example =
    return-setup 24 sum_function before (inside func_state_profiling) main_frame []
      (main_function func_state_profiling) 5 4 (omega arith) refl refl refl (omega arith)
      (omega arith) (λ i h. let z : i ≡ 0 = omega arith in rw z refl) refl
      (λ p. absurd (ground arith))

get_array_element-operands_example :
    (get_array_element (thread_on func_state_profiling 2 (1 ∷ array_value ∷ [])) >>= λ u.
    ok (operands u))
    ≡ ok (5 ∷ [])
unfolding below_top as_number is_object as_object is_number
get_array_element-operands_example =
    get_array_element-operands (thread_on func_state_profiling 2 (1 ∷ array_value ∷ [])) array_value
      1 (4 ∷ 5 ∷ 6 ∷ []) [] (omega arith) refl (refl, refl) refl

copy_stack_from_esp-operands_example :
    copy_stack_from_esp 2 before (replicate 3 0) ≡ ok (3 ∷ 2 ∷ 0 ∷ [])
unfolding below_top
copy_stack_from_esp-operands_example =
    copy_stack_from_esp-operands 2 before (replicate 3 0) (omega arith) (omega arith) (omega arith)

abbrev new_thread : NewThread
new_thread = record { stack = []; esp = 0; frame = main_frame }

try_add_child_to_parent_list-TakesOneSlot_example :
    TakesOneSlot
      (child new_thread ∷ empty_slot ∷ [])
      (try_add_child_to_parent_list new_thread (child new_thread ∷ empty_slot ∷ []))
try_add_child_to_parent_list-TakesOneSlot_example =
    try_add_child_to_parent_list-TakesOneSlot new_thread (child new_thread ∷ empty_slot ∷ [])

execute-op_length_example :
    Moves
      (op_length op_fast_const_16 - 1)
      (thread_on func_state_profiling 2 (9 ∷ 4 ∷ 0 ∷ []))
      (execute services no_run op_fast_const_16 (thread_on func_state_profiling 2 (9 ∷ 4 ∷ 0 ∷ [])))
execute-op_length_example =
    execute-op_length services no_run (λ a b t. returns (stays refl refl)) op_fast_const_16
      two_numbers refl

execute-IsFramed_example : Holds IsFramed (execute services no_run op_call before)
execute-IsFramed_example =
    execute-IsFramed services no_run (λ a b t. returns (stays refl refl))
      (λ f args t. returns (stays refl refl)) (λ f t h. returns h) op_call before
      (λ p. absurd (ground arith)) (omega arith)

-- The element 1 of the array is assigned 7, then read.
abbrev after_assignment : VmThread
after_assignment = record (thread_on func_state_profiling 2 (1 ∷ array_value ∷ [])) {
  heap =
      (8, function_object (main_function func_state_profiling))
      ∷ (16, array_object (4 ∷ 7 ∷ 6 ∷ []))
      ∷ (24, function_object sum_function)
      ∷ [];
}

get_array_element-set_array_element_example :
    (get_array_element after_assignment >>= λ w. ok (operands w)) ≡ ok (7 ∷ [])
unfolding below_top is_object as_object is_number as_number set_array_element pop_and_check_object
    pop_stack_vm pop_at object_type
get_array_element-set_array_element_example =
    get_array_element-set_array_element
      (thread_on func_state_profiling 3 (1 ∷ 7 ∷ array_value ∷ [])) after_assignment array_value 1 7
      (4 ∷ 5 ∷ 6 ∷ []) [] [] (omega arith) refl (refl, refl) refl (omega arith) (omega arith) refl
      refl
