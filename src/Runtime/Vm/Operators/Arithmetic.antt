-- ===== src/Runtime/Vm/Operators/Arithmetic.antt =====
-- The results of the operators of src/runtime/vm.c, as arithmetic of words.
use lox_vm.Prelude.{
  ℕ, zero, suc, ◌-◌, ◌*◌, ◌/◌, ◌%◌, ◌^◌, ◌≡◌, refl, ap, arith, leb, bit_and, bit_or, if◌then◌else◌,
}
use native.Mathlib.Nat.{div-add-mod}
use lox_vm.Shared.Bytecode.{
  Bytecode, op_sub, op_mul, op_div, op_binary_op_and, op_binary_op_or, op_left_shift,
  op_right_shift, op_modulo,
}
use lox_vm.Runtime.Vm.Outcome.{Outcome, ok, fault}
use lox_vm.Runtime.Vm.Operators.{word_op}

-- The arithmetic of words of 64 bits that the operators stand for. The left operand is the one below.
abbrev pub word_arithmetic : Bytecode → ℕ → ℕ → Outcome ℕ
word_arithmetic op_sub a b = ok (if leb b a then (a - b) % 2 ^ 64 else 2 ^ 64 - (b - a))
word_arithmetic op_mul a b = ok (a * b - 2 ^ 64 * (a * b / 2 ^ 64))
word_arithmetic op_div a zero = fault
word_arithmetic op_div a (suc b) = ok (a / suc b)
word_arithmetic op_modulo a zero = fault
word_arithmetic op_modulo a (suc b) = ok (a - suc b * (a / suc b))
word_arithmetic op_binary_op_and a b = ok (bit_and a b)
word_arithmetic op_binary_op_or a b = ok (bit_or a b)
word_arithmetic op_left_shift a b =
    if leb 64 b then fault else ok (2 ^ b * a - 2 ^ 64 * (2 ^ b * a / 2 ^ 64))
word_arithmetic op_right_shift a b = if leb 64 b then fault else ok (a / 2 ^ b)
word_arithmetic _ a b = fault

pub word_op_modulo : (a b : ℕ) → word_op op_modulo a b ≡ word_arithmetic op_modulo a b
unfolding word_op
word_op_modulo a zero = refl
word_op_modulo a (suc b) = ground (arith, div-add-mod a (suc b))

pub word_op_div : (a b : ℕ) → word_op op_div a b ≡ word_arithmetic op_div a b
unfolding word_op
word_op_div a zero = refl
word_op_div a (suc b) = ground arith

pub word_op_sub : (a b : ℕ) → word_op op_sub a b ≡ word_arithmetic op_sub a b
unfolding word_op
word_op_sub a b = ground arith

pub word_op_mul : (a b : ℕ) → word_op op_mul a b ≡ word_arithmetic op_mul a b
unfolding word_op
word_op_mul a b = ap ok (omega arith)

pub word_op_left : (a b : ℕ) → word_op op_left_shift a b ≡ word_arithmetic op_left_shift a b
unfolding word_op
word_op_left a b = ground arith

pub word_op_right : (a b : ℕ) → word_op op_right_shift a b ≡ word_arithmetic op_right_shift a b
unfolding word_op
word_op_right a b = ground arith
