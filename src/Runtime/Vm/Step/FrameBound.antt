-- ===== src/Runtime/Vm/Step/FrameBound.antt =====
-- The number of frames of a thread of src/runtime/vm.c.
use lox_vm.Prelude.{
  ℕ, ◌≡◌, refl, ◌≢◌, Bool, true, false, not, List, [], ◌∷◌, arith, ltb, leb, ◌==◌, if◌then◌else◌,
  length,
}
use lox_vm.Shared.Values.{is_object, as_object}
use lox_vm.Shared.Bytecode.{
  Bytecode, op_constant, op_nil, op_true, op_false, op_pop, op_equal, op_greater, op_less,
  op_return, op_negate, op_print, op_eof, op_add, op_sub, op_define_global, op_get_global,
  op_set_global, op_get_local, op_set_local, op_mul, op_div, op_not, op_jump_if_false, op_jump,
  op_loop, op_call, op_initialize_struct, op_get_struct_field, op_set_struct_field,
  op_enter_package, op_exit_package, op_enter_monitor, op_exit_monitor, op_initialize_array,
  op_get_array_element, op_set_array_element, op_fast_const_8, op_fast_const_16, op_const_1,
  op_const_2, op_no_op, op_package_const, op_enter_monitor_explicit, op_exit_monitor_explicit,
  op_binary_op_and, op_binary_op_or, op_left_shift, op_right_shift, op_modulo, op_get_array_length,
}
use lox_vm.Runtime.Vm.Outcome.{
  Outcome, Panic, ok, panic, fault, ◌>>=◌, access, Holds, returns, panics, faults, Holds-bind,
}
use lox_vm.Runtime.Vm.Machine.{
  find_key, Object, FunctionObject, FunctionState, VmThread, Services, frame_max, Compilation,
  concurrent, uncompilable, compiled, function_object, native_function_object,
  func_state_not_profiling, func_state_profiling, func_state_jit_compiling, func_state_jit_compiled,
  func_state_jit_uncompilable,
}
use lox_vm.Runtime.Vm.Stack.{peek_vm}
use lox_vm.Runtime.Vm.Frames.{
  read_bytecode, setup_call_frame_function, restore_prev_call_frame, increase_n_function_calls,
}
use lox_vm.Runtime.Vm.Calls.{
  copy_stack_from_esp, add_child_to_parent_list, start_child_thread, put_function, jit_compile,
  tier_up, call_function, call_native, call_object, call_vm,
}
use lox_vm.Runtime.Vm.Packages.{restore_prev_package_execution, frame_to_leave, exit_package}
use lox_vm.Runtime.Vm.Step.{execute}
use lox_vm.Runtime.Vm.Step.Advance.{
  Reads, Holds-access, Holds-if, push-Moves, current-Holds, bytecode-Reads,
}
use lox_vm.Runtime.Vm.Step.Length.{execute-op_length}
use lox_vm.Runtime.Vm.Step.Framed.{
  IsFramed, after, Moves-IsFramed, set_current_frame-IsFramed, jump-IsFramed, loop-IsFramed,
  jump_if_false-IsFramed, restore-IsFramed, return_function-IsFramed,
}

module _ (services : Services) (run : VmThread → Outcome VmThread)
    (concatenate_stays : (a b : ℕ) (t : VmThread) → Reads 0 t (services.concatenate a b t))
    (native_stays : (f : ℕ) (args : List ℕ) (t : VmThread) → Reads 0 t (services.native f args t))
    (run_IsFramed : (f : ℕ) (t : VmThread)
      → IsFramed t
      → Holds IsFramed (services.run_jit_compiled f t)) where
  start-IsFramed :
      (address : ℕ) (f : FunctionObject) (t : VmThread)
      → IsFramed t
      → Holds IsFramed (start_child_thread services address f t)
  unfolding start_child_thread
  start-IsFramed address f t h = Holds-access (copy_stack_from_esp f.n_arguments t _) _ (λ stack.
      Holds-access (add_child_to_parent_list services _ t.children) _ (λ children. returns h))

  jit_compile-IsFramed :
      (address : ℕ) (f : FunctionObject) (t : VmThread)
      → IsFramed t
      → Holds IsFramed (jit_compile services address f t)
  unfolding jit_compile
  jit_compile-IsFramed address f t h = from (services.try_jit_compile f)
    where
      from :
          (c : Compilation)
          → Holds IsFramed (elim c [
            | concurrent ↦ ok t
            | uncompilable ↦
                ok (put_function address (record f { state = func_state_jit_uncompilable }) t)
            | compiled ↦ services.run_jit_compiled address (
                put_function address
                  (record f { state = func_state_jit_compiled; profile_written = false })
                  t)
          ])
      from concurrent = returns h
      from uncompilable = returns h
      from compiled = run_IsFramed address _ h

  tier_up-IsFramed :
      (address : ℕ) (f : FunctionObject) (t : VmThread)
      → IsFramed t
      → Holds IsFramed (tier_up services address f t)
  unfolding tier_up
  tier_up-IsFramed address f t h = from f.state
    where
      from :
          (s : FunctionState)
          → Holds IsFramed (elim s [
            | func_state_not_profiling ↦ ok (put_function address (increase_n_function_calls 0 f) t)
            | func_state_profiling ↦
                if services.can_jit_compile f then jit_compile services address f t else ok t
            | func_state_jit_compiling ↦ ok t
            | func_state_jit_uncompilable ↦ ok t
            | func_state_jit_compiled ↦ services.run_jit_compiled address t
          ])
      from func_state_not_profiling = returns h
      from func_state_profiling =
          Holds-if (services.can_jit_compile f) (jit_compile-IsFramed address f t h) (returns h)
      from func_state_jit_compiling = returns h
      from func_state_jit_uncompilable = returns h
      from func_state_jit_compiled = run_IsFramed address t h

  -- The only place where a call takes a frame is behind the guard.
  setup-IsFramed :
      (address : ℕ) (f : FunctionObject) (t : VmThread)
      → leb frame_max (length t.frames) ≡ false
      → Holds IsFramed (setup_call_frame_function address f t)
  unfolding setup_call_frame_function
  setup-IsFramed address f t h = Holds-if (leb f.n_arguments t.esp) (returns (ground arith)) faults

  guarded :
      {A : Type 0} {P : A → Type 0} (b : Bool) (p : Panic) (x : Outcome A)
      → (b ≡ false → Holds P x)
      → Holds P (if b then panic p else x)
  guarded true p x h = panics
  guarded false p x h = h refl

  call_function-IsFramed :
      (address : ℕ) (f : FunctionObject) (n : ℕ) (is_parallel : Bool) (t : VmThread)
      → IsFramed t
      → Holds IsFramed (call_function services address f n is_parallel t)
  unfolding call_function
  call_function-IsFramed address f n is_parallel t h = Holds-if (not (n == f.n_arguments)) panics (
      guarded (leb frame_max (length t.frames)) _ _ (λ free.
        Holds-if is_parallel (start-IsFramed address f t h)
          (Holds-bind (setup-IsFramed address f t free) (λ t h. tier_up-IsFramed address f t h))))

  call_object-IsFramed :
      (address : ℕ) (object : Object) (n : ℕ) (is_parallel : Bool) (t : VmThread)
      → IsFramed t
      → Holds IsFramed (call_object services address object n is_parallel t)
  unfolding call_object call_native
  call_object-IsFramed address (function_object f) n is_parallel t h =
      call_function-IsFramed address f n is_parallel t h
  call_object-IsFramed address (native_function_object native) n is_parallel t h =
      Holds-if is_parallel panics (
        Holds-if (ltb n t.esp)
          (after t (services.native native _ t) _ h (native_stays native _ t)
            (λ v t h. Moves-IsFramed h (push-Moves v _)))
          faults)
  call_object-IsFramed address _ n is_parallel t h = panics

  call_vm-IsFramed : (t : VmThread) → IsFramed t → Holds IsFramed (call_vm services t)
  unfolding call_vm
  call_vm-IsFramed t h = after t (read_bytecode t) _ h (bytecode-Reads t) (λ n t h.
      after t (read_bytecode t) _ h (bytecode-Reads t) (λ is_parallel t h.
        Holds-access (peek_vm n t) _ (λ callee.
          Holds-if (is_object callee)
            (Holds-access (access (find_key t.heap (as_object callee))) _
              (λ object. call_object-IsFramed (as_object callee) object n (ltb 0 is_parallel) t h))
            panics)))

  exit_package-IsFramed : (t : VmThread) → IsFramed t → Holds IsFramed (exit_package t)
  unfolding exit_package restore_prev_package_execution
  exit_package-IsFramed t h = Holds-access (frame_to_leave t) _ (λ left.
      Holds-bind (restored t.package_stack)
        (λ t h. current-Holds t _ (λ frame frames p. returns (set_current_frame-IsFramed t _ h))))
    where
      restored :
          (ids : List ℕ)
          → Holds IsFramed (elim ids [
            | [] ↦ fault
            | id ∷ ids ↦ (do
              (last, thread) ←
                  restore_prev_call_frame (record t { current_package = id; package_stack = ids })
              ok thread)
          ])
      restored [] = faults
      restored (id ∷ ids) =
          Holds-bind (restore-IsFramed (record t { current_package = id; package_stack = ids }) h)
            (λ r h. returns h)

  -- From a thread of at most FRAME_MAX frames every single instruction but op_enter_package, which tests
  -- nothing, leads to a thread of at most FRAME_MAX frames, if it returns one. This assumes that the
  -- joining of texts and the native functions leave the frames and the size of the stack alone, and that a
  -- run of compiled machine code keeps the same bound.
  pub execute-IsFramed :
      (op : Bytecode) (t : VmThread)
      → op ≢ op_enter_package
      → IsFramed t
      → Holds IsFramed (execute services run op t)
  unfolding execute
  execute-IsFramed op_constant t other h =
      Moves-IsFramed h (execute-op_length services run concatenate_stays op_constant t refl)
  execute-IsFramed op_nil t other h =
      Moves-IsFramed h (execute-op_length services run concatenate_stays op_nil t refl)
  execute-IsFramed op_true t other h =
      Moves-IsFramed h (execute-op_length services run concatenate_stays op_true t refl)
  execute-IsFramed op_false t other h =
      Moves-IsFramed h (execute-op_length services run concatenate_stays op_false t refl)
  execute-IsFramed op_pop t other h =
      Moves-IsFramed h (execute-op_length services run concatenate_stays op_pop t refl)
  execute-IsFramed op_equal t other h =
      Moves-IsFramed h (execute-op_length services run concatenate_stays op_equal t refl)
  execute-IsFramed op_greater t other h =
      Moves-IsFramed h (execute-op_length services run concatenate_stays op_greater t refl)
  execute-IsFramed op_less t other h =
      Moves-IsFramed h (execute-op_length services run concatenate_stays op_less t refl)
  execute-IsFramed op_return t other h = return_function-IsFramed t h
  execute-IsFramed op_negate t other h =
      Moves-IsFramed h (execute-op_length services run concatenate_stays op_negate t refl)
  execute-IsFramed op_print t other h =
      Moves-IsFramed h (execute-op_length services run concatenate_stays op_print t refl)
  execute-IsFramed op_eof t other h =
      Moves-IsFramed h (execute-op_length services run concatenate_stays op_eof t refl)
  execute-IsFramed op_add t other h =
      Moves-IsFramed h (execute-op_length services run concatenate_stays op_add t refl)
  execute-IsFramed op_sub t other h =
      Moves-IsFramed h (execute-op_length services run concatenate_stays op_sub t refl)
  execute-IsFramed op_define_global t other h =
      Moves-IsFramed h (execute-op_length services run concatenate_stays op_define_global t refl)
  execute-IsFramed op_get_global t other h =
      Moves-IsFramed h (execute-op_length services run concatenate_stays op_get_global t refl)
  execute-IsFramed op_set_global t other h =
      Moves-IsFramed h (execute-op_length services run concatenate_stays op_set_global t refl)
  execute-IsFramed op_get_local t other h =
      Moves-IsFramed h (execute-op_length services run concatenate_stays op_get_local t refl)
  execute-IsFramed op_set_local t other h =
      Moves-IsFramed h (execute-op_length services run concatenate_stays op_set_local t refl)
  execute-IsFramed op_mul t other h =
      Moves-IsFramed h (execute-op_length services run concatenate_stays op_mul t refl)
  execute-IsFramed op_div t other h =
      Moves-IsFramed h (execute-op_length services run concatenate_stays op_div t refl)
  execute-IsFramed op_not t other h =
      Moves-IsFramed h (execute-op_length services run concatenate_stays op_not t refl)
  execute-IsFramed op_jump_if_false t other h = jump_if_false-IsFramed t h
  execute-IsFramed op_jump t other h = jump-IsFramed t h
  execute-IsFramed op_loop t other h = loop-IsFramed t h
  execute-IsFramed op_call t other h = call_vm-IsFramed t h
  execute-IsFramed op_initialize_struct t other h =
      Moves-IsFramed h
        (execute-op_length services run concatenate_stays op_initialize_struct t refl)
  execute-IsFramed op_get_struct_field t other h =
      Moves-IsFramed h (execute-op_length services run concatenate_stays op_get_struct_field t refl)
  execute-IsFramed op_set_struct_field t other h =
      Moves-IsFramed h (execute-op_length services run concatenate_stays op_set_struct_field t refl)
  execute-IsFramed op_enter_package t other h = absurd (other refl)
  execute-IsFramed op_exit_package t other h = exit_package-IsFramed t h
  execute-IsFramed op_enter_monitor t other h =
      Moves-IsFramed h (execute-op_length services run concatenate_stays op_enter_monitor t refl)
  execute-IsFramed op_exit_monitor t other h =
      Moves-IsFramed h (execute-op_length services run concatenate_stays op_exit_monitor t refl)
  execute-IsFramed op_initialize_array t other h =
      Moves-IsFramed h (execute-op_length services run concatenate_stays op_initialize_array t refl)
  execute-IsFramed op_get_array_element t other h =
      Moves-IsFramed h
        (execute-op_length services run concatenate_stays op_get_array_element t refl)
  execute-IsFramed op_set_array_element t other h =
      Moves-IsFramed h
        (execute-op_length services run concatenate_stays op_set_array_element t refl)
  execute-IsFramed op_fast_const_8 t other h =
      Moves-IsFramed h (execute-op_length services run concatenate_stays op_fast_const_8 t refl)
  execute-IsFramed op_fast_const_16 t other h =
      Moves-IsFramed h (execute-op_length services run concatenate_stays op_fast_const_16 t refl)
  execute-IsFramed op_const_1 t other h =
      Moves-IsFramed h (execute-op_length services run concatenate_stays op_const_1 t refl)
  execute-IsFramed op_const_2 t other h =
      Moves-IsFramed h (execute-op_length services run concatenate_stays op_const_2 t refl)
  execute-IsFramed op_no_op t other h =
      Moves-IsFramed h (execute-op_length services run concatenate_stays op_no_op t refl)
  execute-IsFramed op_package_const t other h =
      Moves-IsFramed h (execute-op_length services run concatenate_stays op_package_const t refl)
  execute-IsFramed op_enter_monitor_explicit t other h =
      Moves-IsFramed h
        (execute-op_length services run concatenate_stays op_enter_monitor_explicit t refl)
  execute-IsFramed op_exit_monitor_explicit t other h =
      Moves-IsFramed h
        (execute-op_length services run concatenate_stays op_exit_monitor_explicit t refl)
  execute-IsFramed op_binary_op_and t other h =
      Moves-IsFramed h (execute-op_length services run concatenate_stays op_binary_op_and t refl)
  execute-IsFramed op_binary_op_or t other h =
      Moves-IsFramed h (execute-op_length services run concatenate_stays op_binary_op_or t refl)
  execute-IsFramed op_left_shift t other h =
      Moves-IsFramed h (execute-op_length services run concatenate_stays op_left_shift t refl)
  execute-IsFramed op_right_shift t other h =
      Moves-IsFramed h (execute-op_length services run concatenate_stays op_right_shift t refl)
  execute-IsFramed op_modulo t other h =
      Moves-IsFramed h (execute-op_length services run concatenate_stays op_modulo t refl)
  execute-IsFramed op_get_array_length t other h =
      Moves-IsFramed h (execute-op_length services run concatenate_stays op_get_array_length t refl)
