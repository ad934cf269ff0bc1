-- ===== src/Runtime/Vm/Calls.antt =====
-- Calls of src/runtime/vm.c, on the thread itself or on a new one.
pub mod Arguments
use lox_vm.Prelude.{
  ℕ, zero, suc, ◌+◌, ◌-◌, Bool, true, false, List, [], ◌∷◌, Option, none, some, get_elem?, set,
  length, replicate, take, drop, ltb, leb, ◌==◌, not, if◌then◌else◌,
}
use lox_vm.Shared.Values.{is_object, as_object}
use lox_vm.Runtime.Vm.Outcome.{
  Outcome, ok, panic, fault, ◌>>=◌, access, cannot_call, parallel_native, wrong_arguments,
  stack_overflow, too_many_children,
}
use lox_vm.Runtime.Vm.Machine.{
  find_key, put_key, FunctionState, func_state_not_profiling, func_state_profiling,
  func_state_jit_compiling, func_state_jit_compiled, func_state_jit_uncompilable, FunctionObject,
  Object, function_object, native_function_object, NewThread, ChildSlot, empty_slot,
  terminated_gc_done, child, VmThread, Services, Compilation, concurrent, uncompilable, compiled,
  stack_max, frame_max,
}
use lox_vm.Runtime.Vm.Stack.{push_stack_vm, peek_vm}
use lox_vm.Runtime.Vm.Frames.{read_bytecode, increase_n_function_calls, setup_call_frame_function}

-- The values from the top of a stack down are copied to a new stack from its bottom up.
unfoldable pub copy_stack_from_esp : ℕ → VmThread → List ℕ → Outcome (List ℕ)
unfolding peek_vm
copy_stack_from_esp zero from to = ok to
copy_stack_from_esp (suc i) from to = do
  to ← copy_stack_from_esp i from to
  value ← peek_vm i from
  if ltb i (length to) then ok (set to i value) else fault

-- The first slot that is empty or whose thread was collected.
unfoldable pub try_add_child_to_parent_list : NewThread → List ChildSlot → Option (List ChildSlot)
try_add_child_to_parent_list new [] = none
try_add_child_to_parent_list new (empty_slot ∷ slots) = some (child new ∷ slots)
try_add_child_to_parent_list new (terminated_gc_done ∷ slots) = some (child new ∷ slots)
try_add_child_to_parent_list new (child other ∷ slots) =
    elim (try_add_child_to_parent_list new slots) [
      | none ↦ none
      | some slots ↦ some (child other ∷ slots)
    ]

abbrev pub put_function : ℕ → FunctionObject → VmThread → VmThread
put_function address f thread = record thread {
  heap = put_key thread.heap address (function_object f);
}

module _ (services : Services) where
  unfoldable pub add_child_to_parent_list : NewThread → List ChildSlot → Outcome (List ChildSlot)
  unfolding try_add_child_to_parent_list
  add_child_to_parent_list new slots = elim (try_add_child_to_parent_list new slots) [
    | some slots ↦ ok slots
    | none ↦ elim (try_add_child_to_parent_list new (services.collect_children slots)) [
      | some slots ↦ ok slots
      | none ↦ panic too_many_children
    ]
  ]

  -- The stack of the caller keeps the function and its arguments.
  unfoldable pub start_child_thread : ℕ → FunctionObject → VmThread → Outcome VmThread
  unfolding add_child_to_parent_list copy_stack_from_esp
  start_child_thread address f thread = do
    stack ← copy_stack_from_esp f.n_arguments thread (replicate stack_max 0)
    let new : NewThread = record {
      stack = stack;
      esp = f.n_locals;
      frame = record { function = address; code = f.code; pc = 0; slots = 0 };
    }
    children ← add_child_to_parent_list new thread.children
    ok (record thread { children = children })

  -- The pointer to the machine code takes the place of that to the profile in `state_as`.
  unfoldable pub jit_compile : ℕ → FunctionObject → VmThread → Outcome VmThread
  jit_compile address f thread = elim (services.try_jit_compile f) [
    | concurrent ↦ ok thread
    | uncompilable ↦
        ok (put_function address (record f { state = func_state_jit_uncompilable }) thread)
    | compiled ↦ services.run_jit_compiled address (
        put_function address (record f { state = func_state_jit_compiled; profile_written = false })
          thread)
  ]

  -- What a call does after the frame is set up, by the state of the function.
  unfoldable pub tier_up : ℕ → FunctionObject → VmThread → Outcome VmThread
  unfolding increase_n_function_calls jit_compile
  tier_up address f thread = elim (f.state) [
    | func_state_not_profiling ↦ ok (put_function address (increase_n_function_calls 0 f) thread)
    | func_state_profiling ↦
        if services.can_jit_compile f then jit_compile address f thread else ok thread
    | func_state_jit_compiling ↦ ok thread
    | func_state_jit_uncompilable ↦ ok thread
    | func_state_jit_compiled ↦ services.run_jit_compiled address thread
  ]

  unfoldable pub call_function : ℕ → FunctionObject → ℕ → Bool → VmThread → Outcome VmThread
  unfolding start_child_thread setup_call_frame_function tier_up
  call_function address f n_args is_parallel thread =
      if not (n_args == f.n_arguments)
      then panic wrong_arguments
      else if leb frame_max (length thread.frames)
      then panic stack_overflow
      else if is_parallel
      then start_child_thread address f thread
      else (do thread ← setup_call_frame_function address f thread; tier_up address f thread)

  -- The arguments are the values from `esp - n_args` on.
  unfoldable pub call_native : ℕ → ℕ → Bool → VmThread → Outcome VmThread
  unfolding push_stack_vm
  call_native native n_args is_parallel thread =
      if is_parallel
      then panic parallel_native
      else if ltb n_args thread.esp
      then (do
        (result, thread) ←
            services.native native (take n_args (drop (thread.esp - n_args) thread.stack)) thread
        push_stack_vm result (record thread { esp = thread.esp - (n_args + 1) }))
      else fault

  unfoldable pub call_object : ℕ → Object → ℕ → Bool → VmThread → Outcome VmThread
  unfolding call_function call_native
  call_object address (function_object f) n_args is_parallel thread =
      call_function address f n_args is_parallel thread
  call_object address (native_function_object native) n_args is_parallel thread =
      call_native native n_args is_parallel thread
  call_object address _ n_args is_parallel thread = panic cannot_call

  unfoldable pub call_vm : VmThread → Outcome VmThread
  unfolding read_bytecode peek_vm is_object as_object call_object
  call_vm thread = do
    (n_args, thread) ← read_bytecode thread
    (is_parallel, thread) ← read_bytecode thread
    callee ← peek_vm n_args thread
    if is_object callee
        then (do
          object ← access (find_key thread.heap (as_object callee))
          call_object (as_object callee) object n_args (ltb 0 is_parallel) thread)
        else panic cannot_call
