-- ===== src/Runtime/Vm/Machine.antt =====
-- The state that the handlers of src/runtime/vm.c read and write: the thread, its frames, the objects and
-- the packages. An object is found by its address; a table of the program is an association list.
use lox_vm.Prelude.{ℕ, Bool, List, [], ◌∷◌, Option, none, some, ◌==◌, if◌then◌else◌}
use lox_vm.Runtime.Vm.Outcome.{Outcome}

module _ {ℓ} {A : Type ℓ} where
  abbrev pub find_key : List (ℕ × A) → ℕ → Option A
  find_key [] key = none
  find_key ((k, a) ∷ table) key = if k == key then some a else find_key table key

  -- The value of a key is replaced, or the key is new.
  abbrev pub put_key : List (ℕ × A) → ℕ → A → List (ℕ × A)
  put_key [] key value = (key, value) ∷ []
  put_key ((k, a) ∷ table) key value =
      let rest = put_key table key value in if k == key then (k, value) ∷ table else (k, a) ∷ rest

pub data FunctionState : Type 0 where
  func_state_not_profiling func_state_profiling func_state_jit_compiling : FunctionState
  func_state_jit_compiled func_state_jit_uncompilable : FunctionState

-- `profile_written` tells whether the pointer to the profile was written to the union `state_as`.
pub record FunctionObject : Type 0 where
  pub n_arguments : ℕ
  pub n_locals : ℕ
  pub code : List ℕ
  pub constants : List ℕ
  pub state : FunctionState
  pub n_calls : ℕ
  pub profile_written : Bool

-- The capacity of an array is the number of its elements, as it is allocated.
pub data Object : Type 0 where
  string_object : List ℕ → Object
  function_object : FunctionObject → Object
  native_function_object : ℕ → Object
  struct_instance_object : List (ℕ × ℕ) → Object
  struct_definition_object : List ℕ → Object
  package_object : ℕ → Object
  array_object : List ℕ → Object

-- `function` is an address, and `pc` a place of `code`, the block of bytes that the pointer runs over.
-- `slots` is one more than the place of the stack it points to, since the first frame of a thread begins one
-- place before its stack.
pub record CallFrame : Type 0 where
  pub function : ℕ
  pub code : List ℕ
  pub pc : ℕ
  pub slots : ℕ

pub data PackageState : Type 0 where
  pending_compilation pending_initialization initializing ready_to_use : PackageState

pub record Package : Type 0 where
  pub state : PackageState
  pub global_variables : List (ℕ × ℕ)
  pub main_function : ℕ

-- What a new thread starts with.
pub record NewThread : Type 0 where
  pub stack : List ℕ
  pub esp : ℕ
  pub frame : CallFrame

pub data ChildSlot : Type 0 where
  empty_slot terminated_gc_done : ChildSlot
  child : NewThread → ChildSlot

-- `frames` holds the frames in use, the current one first; `log` is what was printed, the last first.
pub record VmThread : Type 0 where
  pub stack : List ℕ
  pub esp : ℕ
  pub frames : List CallFrame
  pub children : List ChildSlot
  pub heap : List (ℕ × Object)
  pub packages : List (ℕ × Package)
  pub current_package : ℕ
  pub package_stack : List ℕ
  pub log : List ℕ

-- What comes of a compilation at run time: another thread was compiling the function, the function cannot
-- be compiled, or there is machine code for it.
pub data Compilation : Type 0 where
  concurrent uncompilable compiled : Compilation

-- The other components, as far as the handlers call them: the allocation and the collection of the
-- garbage collector, the string pool, the native functions and the compiler of the runtime. An address is
-- new if `allocate` gives it.
pub record Services : Type 0 where
  pub allocate : List (ℕ × Object) → ℕ
  pub collect_children : List ChildSlot → List ChildSlot
  pub concatenate : ℕ → ℕ → VmThread → Outcome (ℕ × VmThread)
  pub native : ℕ → List ℕ → VmThread → Outcome (ℕ × VmThread)
  pub setup_native_functions : List (ℕ × ℕ) → List (ℕ × ℕ)
  pub can_jit_compile : FunctionObject → Bool
  pub try_jit_compile : FunctionObject → Compilation
  pub run_jit_compiled : ℕ → VmThread → Outcome VmThread

abbrev pub stack_max : ℕ
stack_max = 256

abbrev pub frame_max : ℕ
frame_max = 65536

abbrev pub max_threads_per_thread : ℕ
max_threads_per_thread = 64

abbrev pub min_calls_to_profile : ℕ
min_calls_to_profile = 50
