-- ===== src/Jit/Types/Results.antt =====
-- The conversions of lox_ir_type.c between formats, and the type of an arithmetic operation.
use lox_vm.Prelude.{ℕ, zero, suc, true, false, ◌≡◌, refl, ap, arith, some, max}
use lox_vm.Shared.Bytecode.{op_add, op_sub, op_mul, op_div}
use lox_vm.Jit.Types.{
  LoxIrType, f64, unknown, native_i64, native_string, native_boolean, native_nil, native_array,
  native_struct_instance, lox_any, lox_i64, lox_string, lox_boolean, lox_nil, lox_array,
  lox_struct_instance, tag, same_tag, native_type_to_lox_ir_type, lox_type_to_native_lox_ir_type,
  is_lox_lox_ir_type, is_native_lox_ir_type, arithmetic_type, binary_to_lox_ir_type,
}
use lox_vm.Jit.Types.Finite.{on_all, same_on_all}

-- Boxing a native type gives a boxed type from which it is taken back, and taking the native type of a
-- boxed one other than `any` gives a native type that is boxed to it again.
pub native_type_to-lox_type_to :
    (t : LoxIrType)
    → (is_native_lox_ir_type t ≡ true
        → (is_lox_lox_ir_type (native_type_to_lox_ir_type t) ≡ true)
          × (lox_type_to_native_lox_ir_type (native_type_to_lox_ir_type t) ≡ t))
      × (is_lox_lox_ir_type t ≡ true
          → same_tag t lox_any ≡ false
          → (is_native_lox_ir_type (lox_type_to_native_lox_ir_type t) ≡ true)
            × (native_type_to_lox_ir_type (lox_type_to_native_lox_ir_type t) ≡ t))
unfolding is_native_lox_ir_type is_lox_lox_ir_type native_type_to_lox_ir_type
    lox_type_to_native_lox_ir_type same_tag tag
native_type_to-lox_type_to f64 = (λ h. absurd (ground arith), λ h k. absurd (ground arith))
native_type_to-lox_type_to unknown = (λ h. absurd (ground arith), λ h k. absurd (ground arith))
native_type_to-lox_type_to native_i64 = (λ h. (refl, refl), λ h k. absurd (ground arith))
native_type_to-lox_type_to native_string = (λ h. (refl, refl), λ h k. absurd (ground arith))
native_type_to-lox_type_to native_boolean = (λ h. (refl, refl), λ h k. absurd (ground arith))
native_type_to-lox_type_to native_nil = (λ h. (refl, refl), λ h k. absurd (ground arith))
native_type_to-lox_type_to native_array = (λ h. (refl, refl), λ h k. absurd (ground arith))
native_type_to-lox_type_to native_struct_instance =
    (λ h. (refl, refl), λ h k. absurd (ground arith))
native_type_to-lox_type_to lox_any = (λ h. absurd (ground arith), λ h k. absurd (ground arith))
native_type_to-lox_type_to lox_i64 = (λ h. absurd (ground arith), λ h k. (refl, refl))
native_type_to-lox_type_to lox_string = (λ h. absurd (ground arith), λ h k. (refl, refl))
native_type_to-lox_type_to lox_boolean = (λ h. absurd (ground arith), λ h k. (refl, refl))
native_type_to-lox_type_to lox_nil = (λ h. absurd (ground arith), λ h k. (refl, refl))
native_type_to-lox_type_to lox_array = (λ h. absurd (ground arith), λ h k. (refl, refl))
native_type_to-lox_type_to lox_struct_instance = (λ h. absurd (ground arith), λ h k. (refl, refl))

-- How strongly a type decides the result of an operation.
abbrev pub rank : LoxIrType → ℕ
rank unknown = 4
rank lox_string = 3
rank lox_any = 2
rank f64 = 1
rank _ = 0

abbrev pub of_rank : ℕ → LoxIrType
of_rank zero = lox_i64
of_rank (suc zero) = f64
of_rank (suc (suc zero)) = lox_any
of_rank (suc (suc (suc zero))) = lox_string
of_rank _ = unknown

arithmetic-rank : (a b : LoxIrType) → arithmetic_type a b ≡ of_rank (max (rank a) (rank b))
unfolding arithmetic_type same_tag tag on_all
arithmetic-rank a b = same_on_all arithmetic_type (λ a b. of_rank (max (rank a) (rank b))) refl a b

-- The type of an arithmetic operation is that of the operand that decides most: unknown before a string,
-- `any` and a float, and an integer if there is none of these.
pub binary_to-rank :
    (a b : LoxIrType)
    → let t = some (of_rank (max (rank a) (rank b))) in
      (binary_to_lox_ir_type op_add a b ≡ t)
      × (binary_to_lox_ir_type op_sub a b ≡ t)
      × (binary_to_lox_ir_type op_mul a b ≡ t)
      × (binary_to_lox_ir_type op_div a b ≡ t)
unfolding binary_to_lox_ir_type
binary_to-rank a b = let e = ap some (arithmetic-rank a b) in (e, e, e, e)
