-- ===== src/Runtime/Vm/Frames.antt =====
-- The frames of src/runtime/vm.c: what an instruction reads from its code, the jumps, and how a frame is
-- entered and left.
pub mod Returns
pub mod Counting
use lox_vm.Prelude.{
  ℕ, zero, suc, ◌+◌, ◌-◌, ◌*◌, Bool, true, false, List, [], ◌∷◌, get_elem?, length, leb, ltb, ◌==◌,
  if◌then◌else◌,
}
use lox_vm.Shared.Values.{is_object, as_object, cast_to_boolean}
use lox_vm.Shared.Bytecode.{opcode, op_eof}
use lox_vm.Runtime.Vm.Outcome.{Outcome, ok, panic, fault, ◌>>=◌, access}
use lox_vm.Runtime.Vm.Machine.{
  find_key, put_key, FunctionState, func_state_not_profiling, func_state_profiling,
  func_state_jit_compiling, func_state_jit_compiled, func_state_jit_uncompilable, FunctionObject,
  Object, function_object, CallFrame, VmThread, min_calls_to_profile,
}
use lox_vm.Runtime.Vm.Stack.{push_stack_vm, pop_stack_vm}

unfoldable pub get_current_frame : VmThread → Outcome CallFrame
get_current_frame thread = elim (thread.frames) [ [] ↦ fault | frame ∷ frames ↦ ok frame ]

abbrev pub set_current_frame : VmThread → CallFrame → VmThread
set_current_frame thread frame = elim (thread.frames) [
  | [] ↦ thread
  | _ ∷ frames ↦ record thread { frames = frame ∷ frames }
]

-- `READ_BYTECODE`
unfoldable pub read_bytecode : VmThread → Outcome (ℕ × VmThread)
unfolding get_current_frame
read_bytecode thread = do
  frame ← get_current_frame thread
  byte ← access (get_elem? frame.code frame.pc)
  ok (byte, set_current_frame thread (record frame { pc = suc frame.pc }))

-- `READ_U16`, on a little-endian machine
unfoldable pub read_u16 : VmThread → Outcome (ℕ × VmThread)
unfolding get_current_frame
read_u16 thread = do
  frame ← get_current_frame thread
  low ← access (get_elem? frame.code frame.pc)
  high ← access (get_elem? frame.code (suc frame.pc))
  ok (low + 256 * high, set_current_frame thread (record frame { pc = frame.pc + 2 }))

unfoldable pub function_at : VmThread → ℕ → Outcome FunctionObject
function_at thread address = elim (access (find_key thread.heap address)) [
  | ok (function_object f) ↦ ok f
  | _ ↦ fault
]

-- `READ_CONSTANT`
unfoldable pub read_constant : VmThread → Outcome (ℕ × VmThread)
unfolding get_current_frame read_bytecode function_at
read_constant thread = do
  frame ← get_current_frame thread
  (index, thread) ← read_bytecode thread
  f ← function_at thread frame.function
  value ← access (get_elem? f.constants index)
  ok (value, thread)

-- The counter is loaded, other threads add to it, and it is incremented: `others` is what they add.
unfoldable pub increase_n_function_calls : ℕ → FunctionObject → FunctionObject
increase_n_function_calls others f =
    let old = f.n_calls + others in
    let counted = record f { n_calls = suc old } in
    if ltb f.n_calls min_calls_to_profile
    then if old == min_calls_to_profile
      then record counted { state = func_state_profiling; profile_written = true }
      else counted
    else f

abbrev pub count_if_not_profiling : FunctionObject → FunctionObject
count_if_not_profiling f = elim (f.state) [
  | func_state_not_profiling ↦ increase_n_function_calls 0 f
  | _ ↦ f
]

-- The guard at the head of the three jumps.
unfoldable pub count_jump : VmThread → Outcome VmThread
unfolding get_current_frame function_at increase_n_function_calls
count_jump thread = do
  frame ← get_current_frame thread
  f ← function_at thread frame.function
  ok (record thread {
    heap = put_key thread.heap frame.function (function_object (count_if_not_profiling f));
  })

abbrev pub move_pc : (ℕ → Outcome ℕ) → VmThread → Outcome VmThread
move_pc to thread = do
  frame ← get_current_frame thread
  pc ← to frame.pc
  ok (set_current_frame thread (record frame { pc = pc }))

unfoldable pub jump : VmThread → Outcome VmThread
unfolding count_jump read_u16 get_current_frame
jump thread = do
  thread ← count_jump thread
  (offset, thread) ← read_u16 thread
  move_pc (λ pc. ok (pc + offset)) thread

unfoldable pub jump_if_false : VmThread → Outcome VmThread
unfolding count_jump read_u16 get_current_frame cast_to_boolean pop_stack_vm
jump_if_false thread = do
  thread ← count_jump thread
  (value, thread) ← pop_stack_vm thread
  if cast_to_boolean value
      then move_pc (λ pc. ok (pc + 2)) thread
      else (do (offset, thread) ← read_u16 thread; move_pc (λ pc. ok (pc + offset)) thread)

-- A jump to in front of the code is a fault.
unfoldable pub loop : VmThread → Outcome VmThread
unfolding count_jump read_u16 get_current_frame
loop thread = do
  thread ← count_jump thread
  (offset, thread) ← read_u16 thread
  move_pc (λ pc. if leb offset pc then ok (pc - offset) else fault) thread

-- The place of a local variable of a frame.
unfoldable pub place : CallFrame → ℕ → Outcome ℕ
place frame slot = elim (frame.slots + slot) [ zero ↦ fault | suc i ↦ ok i ]

-- The frame of a call begins at the function itself, below its arguments; the other locals get their
-- place without a value.
unfoldable pub setup_call_frame_function : ℕ → FunctionObject → VmThread → Outcome VmThread
setup_call_frame_function address f thread =
    if leb f.n_arguments thread.esp
    then ok (record thread {
      frames =
          record { function = address; code = f.code; pc = 0; slots = thread.esp - f.n_arguments }
          ∷ thread.frames;
      esp = thread.esp + f.n_locals - f.n_arguments;
    })
    else fault

-- The last frame that is left becomes one whose code is `OP_EOF`.
unfoldable pub restore_prev_call_frame : VmThread → Outcome (Bool × VmThread)
restore_prev_call_frame thread = elim (thread.frames) [
  | [] ↦ fault
  | last ∷ [] ↦
      ok (true, record thread { frames = record last { code = opcode op_eof ∷ []; pc = 0 } ∷ [] })
  | _ ∷ frame ∷ frames ↦ ok (false, record thread { frames = frame ∷ frames })
]

-- The access through the pointer to the profile, which is a fault if the pointer was never written. What
-- the profile records is not part of this state.
unfoldable pub profile_returned_value : FunctionObject → VmThread → Outcome VmThread
profile_returned_value caller thread = if caller.profile_written then ok thread else fault

abbrev pub profile_if_not_profiling : FunctionObject → VmThread → Outcome VmThread
profile_if_not_profiling caller thread = elim (caller.state) [
  | func_state_not_profiling ↦ profile_returned_value caller thread
  | _ ↦ ok thread
]

unfoldable pub return_function : VmThread → Outcome VmThread
unfolding get_current_frame function_at pop_stack_vm push_stack_vm restore_prev_call_frame
    profile_returned_value place
return_function thread = do
  returned_frame ← get_current_frame thread
  (value, thread) ← pop_stack_vm thread
  (last_frame, thread) ← restore_prev_call_frame thread
  thread ←
      (if last_frame
        then ok thread
        else (do esp ← place returned_frame 0; ok (record thread { esp = esp })))
  caller_frame ← get_current_frame thread
  caller ← function_at thread caller_frame.function
  thread ← profile_if_not_profiling caller thread
  push_stack_vm value thread
