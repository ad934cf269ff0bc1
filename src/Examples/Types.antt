-- ===== src/Examples/Types.antt =====
-- The functions of src/runtime/jit/advanced/lox_ir_type.c on single types.
use lox_vm.Prelude.{◌≡◌, ◌||◌, ◌&&◌, true, false, some, max}
use lox_vm.Shared.Bytecode.{op_add, op_sub, op_mul, op_div}
use lox_vm.Jit.Types.{
  f64, unknown, native_array, lox_array, lox_string, lox_any, lox_i64, same_tag,
  native_type_to_lox_ir_type, lox_type_to_native_lox_ir_type, is_lox_lox_ir_type,
  is_native_lox_ir_type, binary_to_lox_ir_type, is_format_equivalent_lox_ir_type,
  is_same_number_binay_format_lox_ir_type,
}
use lox_vm.Jit.Types.Formats.{is_format_equivalent-boxed, is_same_number_binay_format-numbers}
use lox_vm.Jit.Types.Results.{native_type_to-lox_type_to, binary_to-rank, of_rank, rank}

is_format_equivalent-boxed_example : is_format_equivalent_lox_ir_type native_array lox_array ≡ (
    same_tag native_array unknown
    || same_tag native_array lox_any
    || same_tag (native_type_to_lox_ir_type native_array) (native_type_to_lox_ir_type lox_array))
is_format_equivalent-boxed_example = is_format_equivalent-boxed native_array lox_array

is_same_number_binay_format-numbers_example :
    is_same_number_binay_format_lox_ir_type lox_i64 lox_string ≡ (
      (same_tag lox_i64 lox_any || same_tag lox_i64 lox_i64 || same_tag lox_i64 f64)
      && (same_tag lox_string lox_any || same_tag lox_string lox_i64 || same_tag lox_string f64))
is_same_number_binay_format-numbers_example = is_same_number_binay_format-numbers lox_i64 lox_string

native_type_to-lox_type_to_example :
    (is_native_lox_ir_type native_array ≡ true
      → (is_lox_lox_ir_type (native_type_to_lox_ir_type native_array) ≡ true)
        × (lox_type_to_native_lox_ir_type (native_type_to_lox_ir_type native_array) ≡ native_array))
    × (is_lox_lox_ir_type native_array ≡ true
        → same_tag native_array lox_any ≡ false
        → (is_native_lox_ir_type (lox_type_to_native_lox_ir_type native_array) ≡ true)
          × (native_type_to_lox_ir_type (lox_type_to_native_lox_ir_type native_array)
              ≡ native_array))
native_type_to-lox_type_to_example = native_type_to-lox_type_to native_array

binary_to-rank_example :
    let t = some (of_rank (max (rank lox_i64) (rank lox_string))) in
    (binary_to_lox_ir_type op_add lox_i64 lox_string ≡ t)
    × (binary_to_lox_ir_type op_sub lox_i64 lox_string ≡ t)
    × (binary_to_lox_ir_type op_mul lox_i64 lox_string ≡ t)
    × (binary_to_lox_ir_type op_div lox_i64 lox_string ≡ t)
binary_to-rank_example = binary_to-rank lox_i64 lox_string
