-- ===== src/Runtime/Vm/Objects.antt =====
-- Variables, arrays and structs of src/runtime/vm.c. A table of variables or of fields is read as what
-- its operations in src/shared/utils/collections/lox_hash_table.c are for: a map from the addresses of
-- names, which are unique, to values.
pub mod Arrays
use lox_vm.Prelude.{
  ℕ, zero, suc, ◌+◌, ◌-◌, Bool, true, false, List, [], ◌∷◌, Option, none, some, get_elem?, set,
  length, replicate, ltb, leb, if◌then◌else◌,
}
use lox_vm.Shared.Values.{
  as_number, nil_value, as_object, to_lox_value_object, obj_array, obj_struct_instance,
}
use lox_vm.Runtime.Vm.Outcome.{
  Outcome, ok, panic, fault, ◌>>=◌, access, undeclared_variable, undefined_field,
  index_out_of_bounds,
}
use lox_vm.Runtime.Vm.Machine.{
  find_key, put_key, Object, array_object, struct_instance_object, struct_definition_object,
  CallFrame, Package, VmThread, Services,
}
use lox_vm.Runtime.Vm.Stack.{
  push_stack_vm, pop_stack_vm, pop_and_check_number, pop_and_check_object,
}
use lox_vm.Runtime.Vm.Frames.{get_current_frame, read_bytecode, read_u16, read_constant, place}

-- A key that is missing reads as `nil`.
unfoldable pub get_hash_table : List (ℕ × ℕ) → ℕ → ℕ
get_hash_table table key = elim (find_key table key) [ none ↦ nil_value | some value ↦ value ]

unfoldable pub put_if_present_hash_table : List (ℕ × ℕ) → ℕ → ℕ → Option (List (ℕ × ℕ))
put_if_present_hash_table table key value = elim (find_key table key) [
  | none ↦ none
  | some _ ↦ some (put_key table key value)
]

unfoldable pub current_package_of : VmThread → Outcome Package
current_package_of thread = access (find_key thread.packages thread.current_package)

abbrev pub set_globals : VmThread → Package → List (ℕ × ℕ) → VmThread
set_globals thread current globals = record thread {
  packages =
      put_key thread.packages thread.current_package
        (record current { global_variables = globals });
}

unfoldable pub define_global : VmThread → Outcome VmThread
unfolding read_constant pop_stack_vm current_package_of
define_global thread = do
  (name, thread) ← read_constant thread
  (value, thread) ← pop_stack_vm thread
  current ← current_package_of thread
  ok (set_globals thread current (put_key current.global_variables (as_object name) value))

unfoldable pub get_global : VmThread → Outcome VmThread
unfolding read_constant push_stack_vm current_package_of get_hash_table
get_global thread = do
  (name, thread) ← read_constant thread
  current ← current_package_of thread
  push_stack_vm (get_hash_table current.global_variables (as_object name)) thread

unfoldable pub set_global : VmThread → Outcome VmThread
unfolding read_constant pop_stack_vm current_package_of put_if_present_hash_table
set_global thread = do
  (name, thread) ← read_constant thread
  (value, thread) ← pop_stack_vm thread
  current ← current_package_of thread
  elim (put_if_present_hash_table current.global_variables (as_object name) value) [
    | none ↦ panic undeclared_variable
    | some globals ↦ ok (set_globals thread current globals)
  ]

unfoldable pub get_local : VmThread → Outcome VmThread
unfolding get_current_frame read_bytecode push_stack_vm place
get_local thread = do
  (slot, thread) ← read_bytecode thread
  frame ← get_current_frame thread
  i ← place frame slot
  value ← access (get_elem? thread.stack i)
  push_stack_vm value thread

unfoldable pub set_local : VmThread → Outcome VmThread
unfolding get_current_frame read_bytecode pop_stack_vm place
set_local thread = do
  (slot, thread) ← read_bytecode thread
  (value, thread) ← pop_stack_vm thread
  frame ← get_current_frame thread
  i ← place frame slot
  if ltb i (length thread.stack)
      then ok (record thread { stack = set thread.stack i value })
      else fault

-- The elements from the last one to the first; a write past the capacity is refused without an effect.
unfoldable pub fill_array : ℕ → List ℕ → VmThread → Outcome (List ℕ × VmThread)
unfolding pop_stack_vm
fill_array zero values thread = ok (values, thread)
fill_array (suc index) values thread = do
  (value, thread) ← pop_stack_vm thread
  fill_array index (set values index value) thread

module _ (services : Services) where
  -- A new object at the address that the collector gives.
  unfoldable pub push_new_object : Object → VmThread → Outcome VmThread
  unfolding push_stack_vm
  push_new_object object thread =
      let address = services.allocate thread.heap in
      push_stack_vm (to_lox_value_object address)
        (record thread { heap = (address, object) ∷ thread.heap })

  unfoldable pub initialize_array : VmThread → Outcome VmThread
  unfolding read_u16 read_bytecode fill_array push_new_object
  initialize_array thread = do
    (n_elements, thread) ← read_u16 thread
    (empty_initialization, thread) ← read_bytecode thread
    (values, thread) ←
        (if ltb 0 empty_initialization
          then ok (replicate n_elements 0, thread)
          else fill_array n_elements (replicate n_elements 0) thread)
    push_new_object (array_object values) thread

  -- The fields of a definition from the last one to the first.
  unfoldable pub fill_struct :
      ℕ → List ℕ → List (ℕ × ℕ) → VmThread → Outcome (List (ℕ × ℕ) × VmThread)
  unfolding pop_stack_vm
  fill_struct zero names fields thread = ok (fields, thread)
  fill_struct (suc index) names fields thread = do
    name ← access (get_elem? names index)
    (value, thread) ← pop_stack_vm thread
    fill_struct index names (put_key fields name value) thread

  unfoldable pub initialize_struct : VmThread → Outcome VmThread
  unfolding read_constant fill_struct push_new_object
  initialize_struct thread = do
    (definition, thread) ← read_constant thread
    (elim (access (find_key thread.heap (as_object definition))) [
      | ok (struct_definition_object names) ↦ (do
        (fields, thread) ← fill_struct (length names) names [] thread
        push_new_object (struct_instance_object fields) thread)
      | _ ↦ fault
    ])

abbrev pub elements : Object → Outcome (List ℕ)
elements (array_object values) = ok values
elements _ = fault

abbrev pub fields_of : Object → Outcome (List (ℕ × ℕ))
fields_of (struct_instance_object fields) = ok fields
fields_of _ = fault

unfoldable pub get_array_length : VmThread → Outcome VmThread
unfolding pop_and_check_object push_stack_vm
get_array_length thread = do
  (address, object, thread) ← pop_and_check_object obj_array thread
  values ← elements object
  push_stack_vm (length values) thread

unfoldable pub get_array_element : VmThread → Outcome VmThread
unfolding pop_and_check_object pop_and_check_number push_stack_vm
get_array_element thread = do
  (address, object, thread) ← pop_and_check_object obj_array thread
  (index, thread) ← pop_and_check_number thread
  values ← elements object
  if leb (length values) index
      then panic index_out_of_bounds
      else (do value ← access (get_elem? values index); push_stack_vm value thread)

-- The write barrier of the collector has no effect on this state.
unfoldable pub set_array_element : VmThread → Outcome VmThread
unfolding pop_and_check_object pop_stack_vm as_number
set_array_element thread = do
  (address, object, thread) ← pop_and_check_object obj_array thread
  (value, thread) ← pop_stack_vm thread
  (index, thread) ← pop_stack_vm thread
  values ← elements object
  if leb (length values) (as_number index)
      then panic index_out_of_bounds
      else ok (record thread {
        heap = put_key thread.heap address (array_object (set values (as_number index) value));
      })

unfoldable pub get_struct_field : VmThread → Outcome VmThread
unfolding pop_and_check_object read_constant get_hash_table push_stack_vm
get_struct_field thread = do
  (address, object, thread) ← pop_and_check_object obj_struct_instance thread
  (name, thread) ← read_constant thread
  fields ← fields_of object
  push_stack_vm (get_hash_table fields (as_object name)) thread

unfoldable pub set_struct_field : VmThread → Outcome VmThread
unfolding pop_stack_vm pop_and_check_object read_constant put_if_present_hash_table
set_struct_field thread = do
  (value, thread) ← pop_stack_vm thread
  (address, object, thread) ← pop_and_check_object obj_struct_instance thread
  (name, thread) ← read_constant thread
  fields ← fields_of object
  elim (put_if_present_hash_table fields (as_object name) value) [
    | none ↦ panic undefined_field
    | some fields ↦
        ok (record thread { heap = put_key thread.heap address (struct_instance_object fields) })
  ]
