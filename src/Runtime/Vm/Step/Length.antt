-- ===== src/Runtime/Vm/Step/Length.antt =====
-- The bytes of an instruction that its handler in src/runtime/vm.c reads, and their number in the table of
-- src/shared/bytecode/bytecode.h.
use lox_vm.Prelude.{
  ℕ, zero, suc, ◌+◌, ◌-◌, ◌≡◌, refl, Bool, true, false, ◌&&◌, List, [], arith, ltb, leb, length,
  get_elem?, set, replicate, length-set,
}
use lox_vm.Shared.Values.{
  as_number, as_object, obj_array, obj_struct_instance, to_lox_value_bool, is_number,
}
use lox_vm.Shared.Bytecode.{
  Bytecode, op_length, op_constant, op_nil, op_true, op_false, op_pop, op_equal, op_greater,
  op_less, op_return, op_negate, op_print, op_eof, op_add, op_sub, op_define_global, op_get_global,
  op_set_global, op_get_local, op_set_local, op_mul, op_div, op_not, op_jump_if_false, op_jump,
  op_loop, op_call, op_initialize_struct, op_get_struct_field, op_set_struct_field,
  op_enter_package, op_exit_package, op_enter_monitor, op_exit_monitor, op_initialize_array,
  op_get_array_element, op_set_array_element, op_fast_const_8, op_fast_const_16, op_const_1,
  op_const_2, op_no_op, op_package_const, op_enter_monitor_explicit, op_exit_monitor_explicit,
  op_binary_op_and, op_binary_op_or, op_left_shift, op_right_shift, op_modulo, op_get_array_length,
}
use lox_vm.Runtime.Vm.Outcome.{Outcome, ok, fault, ◌>>=◌, access, returns, panics, faults}
use lox_vm.Runtime.Vm.Machine.{
  find_key, put_key, Object, VmThread, Services, struct_definition_object, struct_instance_object,
  array_object,
}
use lox_vm.Runtime.Vm.Stack.{push_stack_vm}
use lox_vm.Runtime.Vm.Frames.{place}
use lox_vm.Runtime.Vm.Operators.{
  word_op, binary_op, compare_op, comparation_op, negate_vm, not_vm, equal_vm, addition_lox,
  addition_vm,
}
use lox_vm.Runtime.Vm.Objects.{
  put_if_present_hash_table, current_package_of, define_global, get_global, set_global, get_local,
  set_local, fill_array, fill_struct, push_new_object, elements, fields_of, initialize_array,
  initialize_struct, get_array_length, get_array_element, set_array_element, get_struct_field,
  set_struct_field,
}
use lox_vm.Runtime.Vm.Step.{execute, print, skip_operand, push_read}
use lox_vm.Runtime.Vm.Step.Advance.{
  Moves, Reads, stays, Reads-Moves, Reads-Reads, Holds-access, Holds-if, Holds-option, push-Moves,
  pop-Reads, number-Reads, boolean-Reads, object-Moves, current-Holds, bytecode-Reads, u16-Reads,
  constant-Reads,
}

binary_op-Moves : (op : Bytecode) (t : VmThread) → Moves 0 t (binary_op op t)
unfolding binary_op
binary_op-Moves op t = Reads-Moves _ (number-Reads t) (λ b t.
    Reads-Moves _ (number-Reads t) (λ a t. Holds-access (word_op op a b) _ (λ v. push-Moves v t)))

comparation_op-Moves : (op : Bytecode) (t : VmThread) → Moves 0 t (comparation_op op t)
unfolding comparation_op
comparation_op-Moves op t = Reads-Moves _ (number-Reads t) (λ b t.
    Reads-Moves _ (number-Reads t)
      (λ a t. Holds-access (compare_op op a b) _ (λ v. push-Moves (to_lox_value_bool v) t)))

negate_vm-Moves : (t : VmThread) → Moves 0 t (negate_vm t)
unfolding negate_vm
negate_vm-Moves t = Reads-Moves _ (number-Reads t) (λ v t. push-Moves _ t)

not_vm-Moves : (t : VmThread) → Moves 0 t (not_vm t)
unfolding not_vm
not_vm-Moves t = Reads-Moves _ (boolean-Reads t) (λ v t. push-Moves _ t)

equal_vm-Moves : (t : VmThread) → Moves 0 t (equal_vm t)
unfolding equal_vm
equal_vm-Moves t =
    Reads-Moves _ (pop-Reads t) (λ b t. Reads-Moves _ (pop-Reads t) (λ a t. push-Moves _ t))

print-Moves : (t : VmThread) → Moves 0 t (print t)
unfolding print
print-Moves t = Reads-Moves _ (pop-Reads t) (λ v t. returns (stays refl refl))

push_read-Moves :
    (n : ℕ) (read : VmThread → Outcome (ℕ × VmThread))
    → ((t : VmThread) → Reads n t (read t))
    → (t : VmThread) → Moves (n + 0) t (push_read read t)
push_read-Moves n read h t = Reads-Moves _ (h t) (λ v t. push-Moves v t)

skip_operand-Moves : (n : ℕ) (t : VmThread) → Moves n t (skip_operand n t)
unfolding skip_operand
skip_operand-Moves zero t = returns (stays refl refl)
skip_operand-Moves (suc n) t =
    let one_more : suc n ≡ 1 + n = omega arith in
    rw one_more (Reads-Moves _ (bytecode-Reads t) (λ byte t. skip_operand-Moves n t))

define_global-Moves : (t : VmThread) → Moves 1 t (define_global t)
unfolding define_global
define_global-Moves t = Reads-Moves _ (constant-Reads t) (λ name t.
    Reads-Moves _ (pop-Reads t)
      (λ v t. Holds-access (current_package_of t) _ (λ current. returns (stays refl refl))))

get_global-Moves : (t : VmThread) → Moves 1 t (get_global t)
unfolding get_global
get_global-Moves t =
    Reads-Moves _ (constant-Reads t)
      (λ name t. Holds-access (current_package_of t) _ (λ current. push-Moves _ t))

get_local-Moves : (t : VmThread) → Moves 1 t (get_local t)
unfolding get_local
get_local-Moves t = Reads-Moves _ (bytecode-Reads t) (λ slot t. current-Holds t _ (λ frame frames p.
    Holds-access (place frame slot) _
      (λ i. Holds-access (access (get_elem? t.stack i)) _ (λ v. push-Moves v t))))

set_local-Moves : (t : VmThread) → Moves 1 t (set_local t)
unfolding set_local
set_local-Moves t = Reads-Moves _ (bytecode-Reads t) (λ slot t. Reads-Moves _ (pop-Reads t) (λ v t.
    current-Holds t _ (λ frame frames p. Holds-access (place frame slot) _ (λ i.
      Holds-if (ltb i (length t.stack)) (returns (stays refl (length-set t.stack i v))) faults))))

set_global-Moves : (t : VmThread) → Moves 1 t (set_global t)
unfolding set_global
set_global-Moves t = Reads-Moves _ (constant-Reads t) (λ name t. Reads-Moves _ (pop-Reads t) (λ v t.
    Holds-access (current_package_of t) _ (λ current.
      Holds-option (put_if_present_hash_table current.global_variables (as_object name) v) panics
        (λ globals. returns (stays refl refl)))))

get_array_length-Moves : (t : VmThread) → Moves 0 t (get_array_length t)
unfolding get_array_length
get_array_length-Moves t =
    object-Moves obj_array t _
      (λ address object t. Holds-access (elements object) _ (λ values. push-Moves _ t))

get_array_element-Moves : (t : VmThread) → Moves 0 t (get_array_element t)
unfolding get_array_element
get_array_element-Moves t = object-Moves obj_array t _ (λ address object t.
    Reads-Moves _ (number-Reads t) (λ index t. Holds-access (elements object) _ (λ values.
      Holds-if (leb (length values) index) panics
        (Holds-access (access (get_elem? values index)) _ (λ v. push-Moves v t)))))

set_array_element-Moves : (t : VmThread) → Moves 0 t (set_array_element t)
unfolding set_array_element
set_array_element-Moves t = object-Moves obj_array t _ (λ address object t.
    Reads-Moves _ (pop-Reads t) (λ v t. Reads-Moves _ (pop-Reads t) (λ index t.
      Holds-access (elements object) _ (λ values.
        Holds-if (leb (length values) (as_number index)) panics (returns (stays refl refl))))))

get_struct_field-Moves : (t : VmThread) → Moves 1 t (get_struct_field t)
unfolding get_struct_field
get_struct_field-Moves t = object-Moves obj_struct_instance t _ (λ address object t.
    Reads-Moves _ (constant-Reads t)
      (λ name t. Holds-access (fields_of object) _ (λ fields. push-Moves _ t)))

set_struct_field-Moves : (t : VmThread) → Moves 1 t (set_struct_field t)
unfolding set_struct_field
set_struct_field-Moves t = Reads-Moves _ (pop-Reads t) (λ v t.
    object-Moves obj_struct_instance t _ (λ address object t.
      Reads-Moves _ (constant-Reads t) (λ name t. Holds-access (fields_of object) _ (λ fields.
        Holds-option (put_if_present_hash_table fields (as_object name) v) panics
          (λ fields. returns (stays refl refl))))))

fill_array-Reads : (n : ℕ) (values : List ℕ) (t : VmThread) → Reads 0 t (fill_array n values t)
unfolding fill_array
fill_array-Reads zero values t = returns (stays refl refl)
fill_array-Reads (suc n) values t =
    Reads-Reads _ (pop-Reads t) (λ v t. fill_array-Reads n (set values n v) t)

fill_struct-Reads :
    (n : ℕ) (names : List ℕ) (fields : List (ℕ × ℕ)) (services : Services) (t : VmThread)
    → Reads 0 t (fill_struct services n names fields t)
unfolding fill_struct
fill_struct-Reads zero names fields services t = returns (stays refl refl)
fill_struct-Reads (suc n) names fields services t =
    Holds-access (access (get_elem? names n)) _ (λ name.
      Reads-Reads _ (pop-Reads t)
        (λ v t. fill_struct-Reads n names (put_key fields name v) services t))

module _ (services : Services) where
  new_object-Moves :
      (object : Object) (t : VmThread) → Moves 0 t (push_new_object services object t)
  unfolding push_new_object push_stack_vm
  new_object-Moves object t =
      Holds-if (ltb t.esp (length t.stack)) (returns (stays refl (length-set t.stack t.esp _)))
        faults

  initialize_array-Moves : (t : VmThread) → Moves 3 t (initialize_array services t)
  unfolding initialize_array
  initialize_array-Moves t = Reads-Moves _ (u16-Reads t) (λ n t.
      Reads-Moves _ (bytecode-Reads t) (λ is_empty t.
        Reads-Moves _
          (Holds-if (ltb 0 is_empty) (returns (stays refl refl))
            (fill_array-Reads n (replicate n 0) t))
          (λ values t. new_object-Moves (array_object values) t)))

  initialize_struct-Moves : (t : VmThread) → Moves 1 t (initialize_struct services t)
  unfolding initialize_struct
  initialize_struct-Moves t =
      Reads-Moves _ (constant-Reads t)
        (λ definition t. defined t (access (find_key t.heap (as_object definition))))
    where
      defined :
          (t : VmThread) (o : Outcome Object)
          → Moves 0 t (elim o [
            | ok (struct_definition_object names) ↦ (do
              (fields, thread) ← fill_struct services (length names) names [] t
              push_new_object services (struct_instance_object fields) thread)
            | _ ↦ fault
          ])
      defined t (ok (struct_definition_object names)) =
          Reads-Moves _ (fill_struct-Reads (length names) names [] services t)
            (λ fields t. new_object-Moves (struct_instance_object fields) t)
      defined t _ = faults

-- The instructions that go on with the one behind them in the same frame.
abbrev pub is_straight : Bytecode → Bool
is_straight op_return = false
is_straight op_jump_if_false = false
is_straight op_jump = false
is_straight op_loop = false
is_straight op_call = false
is_straight op_enter_package = false
is_straight op_exit_package = false
is_straight _ = true

module _ (services : Services) (run : VmThread → Outcome VmThread)
    (concatenate_stays : (a b : ℕ) (t : VmThread) → Reads 0 t (services.concatenate a b t)) where
  addition_vm-Moves : (t : VmThread) → Moves 0 t (addition_vm services t)
  unfolding addition_vm addition_lox
  addition_vm-Moves t = Reads-Moves _ (pop-Reads t) (λ b t. Reads-Moves _ (pop-Reads t) (λ a t.
      Reads-Moves _
        (Holds-if (is_number a && is_number b) (returns (stays refl refl))
          (concatenate_stays a b t))
        (λ v t. push-Moves v t)))

  -- When a handler of an instruction that does not jump, call, return or change the package gives a result,
  -- it has read of the code as many bytes as the table says that the instruction has, its own byte apart,
  -- has left the other frames as they were and has not changed the size of the stack. The joining of texts
  -- is assumed to leave frames and stack alone.
  pub execute-op_length :
      (op : Bytecode) (t : VmThread)
      → is_straight op ≡ true
      → Moves (op_length op - 1) t (execute services run op t)
  unfolding execute op_length
  execute-op_length op_constant t h = push_read-Moves 1 _ constant-Reads t
  execute-op_length op_nil t h = push-Moves _ t
  execute-op_length op_true t h = push-Moves _ t
  execute-op_length op_false t h = push-Moves _ t
  execute-op_length op_pop t h = Reads-Moves _ (pop-Reads t) (λ v t. returns (stays refl refl))
  execute-op_length op_equal t h = equal_vm-Moves t
  execute-op_length op_greater t h = comparation_op-Moves op_greater t
  execute-op_length op_less t h = comparation_op-Moves op_less t
  execute-op_length op_return t h = absurd (ground arith)
  execute-op_length op_negate t h = negate_vm-Moves t
  execute-op_length op_print t h = print-Moves t
  execute-op_length op_eof t h = returns (stays refl refl)
  execute-op_length op_add t h = addition_vm-Moves t
  execute-op_length op_sub t h = binary_op-Moves op_sub t
  execute-op_length op_define_global t h = define_global-Moves t
  execute-op_length op_get_global t h = get_global-Moves t
  execute-op_length op_set_global t h = set_global-Moves t
  execute-op_length op_get_local t h = get_local-Moves t
  execute-op_length op_set_local t h = set_local-Moves t
  execute-op_length op_mul t h = binary_op-Moves op_mul t
  execute-op_length op_div t h = binary_op-Moves op_div t
  execute-op_length op_not t h = not_vm-Moves t
  execute-op_length op_jump_if_false t h = absurd (ground arith)
  execute-op_length op_jump t h = absurd (ground arith)
  execute-op_length op_loop t h = absurd (ground arith)
  execute-op_length op_call t h = absurd (ground arith)
  execute-op_length op_initialize_struct t h = initialize_struct-Moves services t
  execute-op_length op_get_struct_field t h = get_struct_field-Moves t
  execute-op_length op_set_struct_field t h = set_struct_field-Moves t
  execute-op_length op_enter_package t h = absurd (ground arith)
  execute-op_length op_exit_package t h = absurd (ground arith)
  execute-op_length op_enter_monitor t h = skip_operand-Moves 1 t
  execute-op_length op_exit_monitor t h = skip_operand-Moves 1 t
  execute-op_length op_initialize_array t h = initialize_array-Moves services t
  execute-op_length op_get_array_element t h = get_array_element-Moves t
  execute-op_length op_set_array_element t h = set_array_element-Moves t
  execute-op_length op_fast_const_8 t h = push_read-Moves 1 _ bytecode-Reads t
  execute-op_length op_fast_const_16 t h = push_read-Moves 2 _ u16-Reads t
  execute-op_length op_const_1 t h = push-Moves _ t
  execute-op_length op_const_2 t h = push-Moves _ t
  execute-op_length op_no_op t h = returns (stays refl refl)
  execute-op_length op_package_const t h = push_read-Moves 1 _ constant-Reads t
  execute-op_length op_enter_monitor_explicit t h = skip_operand-Moves 8 t
  execute-op_length op_exit_monitor_explicit t h = skip_operand-Moves 8 t
  execute-op_length op_binary_op_and t h = binary_op-Moves op_binary_op_and t
  execute-op_length op_binary_op_or t h = binary_op-Moves op_binary_op_or t
  execute-op_length op_left_shift t h = binary_op-Moves op_left_shift t
  execute-op_length op_right_shift t h = binary_op-Moves op_right_shift t
  execute-op_length op_modulo t h = binary_op-Moves op_modulo t
  execute-op_length op_get_array_length t h = get_array_length-Moves t
