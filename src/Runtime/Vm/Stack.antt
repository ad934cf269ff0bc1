-- ===== src/Runtime/Vm/Stack.antt =====
-- The stack of src/runtime/vm.c, and the checks of what is popped.
use lox_vm.Prelude.{
  ℕ, zero, suc, ◌+◌, ◌-◌, ◌*◌, ◌/◌, ◌%◌, ◌^◌, Bool, true, false, ◌||◌, ◌&&◌, List, [], ◌∷◌, Option,
  none, some, get_elem?, set, length, ltb, ◌==◌, if◌then◌else◌,
}
use lox_vm.Shared.Values.{
  is_number, as_number, is_bool, as_bool, is_object, as_object, ObjectType, obj_string,
  obj_function, obj_native_function, obj_struct_instance, obj_struct_definition, obj_package,
  obj_array,
}
use lox_vm.Runtime.Vm.Outcome.{
  Outcome, ok, panic, fault, ◌>>=◌, access, not_a_number, not_a_boolean, unexpected_object,
}
use lox_vm.Runtime.Vm.Machine.{
  find_key, Object, string_object, function_object, native_function_object, struct_instance_object,
  struct_definition_object, package_object, array_object, VmThread,
}
pub mod Operands

unfoldable pub push_stack_vm : ℕ → VmThread → Outcome VmThread
push_stack_vm value thread =
    if ltb thread.esp (length thread.stack)
    then ok (record thread { stack = set thread.stack thread.esp value; esp = suc thread.esp })
    else fault

unfoldable pub pop_at : ℕ → VmThread → Outcome (ℕ × VmThread)
pop_at zero thread = fault
pop_at (suc esp) thread = do
  value ← access (get_elem? thread.stack esp)
  ok (value, record thread { esp = esp })

unfoldable pub pop_stack_vm : VmThread → Outcome (ℕ × VmThread)
unfolding pop_at
pop_stack_vm thread = pop_at thread.esp thread

unfoldable pub peek_vm : ℕ → VmThread → Outcome ℕ
peek_vm index_from_top thread =
    if ltb index_from_top thread.esp
    then access (get_elem? thread.stack (thread.esp - 1 - index_from_top))
    else fault

unfoldable pub pop_and_check_number : VmThread → Outcome (ℕ × VmThread)
unfolding pop_stack_vm is_number as_number
pop_and_check_number thread = do
  (value, thread) ← pop_stack_vm thread
  if is_number value then ok (as_number value, thread) else panic not_a_number

unfoldable pub check_boolean : VmThread → Outcome (Bool × VmThread)
unfolding pop_stack_vm is_bool as_bool
check_boolean thread = do
  (value, thread) ← pop_stack_vm thread
  if is_bool value then ok (as_bool value, thread) else panic not_a_boolean

unfoldable pub object_type : Object → ObjectType
object_type (string_object chars) = obj_string
object_type (function_object f) = obj_function
object_type (native_function_object f) = obj_native_function
object_type (struct_instance_object fields) = obj_struct_instance
object_type (struct_definition_object names) = obj_struct_definition
object_type (package_object p) = obj_package
object_type (array_object values) = obj_array

abbrev pub same_type : ObjectType → ObjectType → Bool
same_type obj_string obj_string = true
same_type obj_function obj_function = true
same_type obj_native_function obj_native_function = true
same_type obj_struct_instance obj_struct_instance = true
same_type obj_struct_definition obj_struct_definition = true
same_type obj_package obj_package = true
same_type obj_array obj_array = true
same_type _ _ = false

-- The address of the object and the object.
unfoldable pub pop_and_check_object : ObjectType → VmThread → Outcome (ℕ × Object × VmThread)
unfolding pop_stack_vm is_object as_object object_type
pop_and_check_object expected_type thread = do
  (value, thread) ← pop_stack_vm thread
  if is_object value
      then (do
        object ← access (find_key thread.heap (as_object value))
        if same_type (object_type object) expected_type
            then ok (as_object value, object, thread)
            else panic unexpected_object)
      else panic unexpected_object
