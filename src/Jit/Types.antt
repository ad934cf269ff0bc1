-- ===== src/Jit/Types.antt =====
-- The types of src/runtime/jit/advanced/lox_ir_type.h and the functions of lox_ir_type.c on their tags.
-- `none` is a failed assertion. The last tag of the enumeration counts the others.
pub mod Finite
pub mod Formats
pub mod Results
use lox_vm.Prelude.{
  ℕ, zero, suc, ◌+◌, Option, none, some, Bool, true, false, not, ◌&&◌, ◌||◌, ◌==◌, leb, ltb,
  if◌then◌else◌, String,
}
use lox_vm.Shared.Bytecode.{
  Bytecode, op_greater, op_equal, op_less, op_binary_op_and, op_binary_op_or, op_left_shift,
  op_right_shift, op_modulo, op_sub, op_mul, op_div, op_add,
}
use lox_vm.Shared.U8Set.{U8Set, init_u8_set, add_u8_set, contains_u8_set}

pub data LoxIrType : Type 0 where
  f64 unknown native_i64 native_string native_boolean : LoxIrType
  native_nil native_array native_struct_instance lox_any lox_i64 : LoxIrType
  lox_string lox_boolean lox_nil lox_array lox_struct_instance : LoxIrType

pub data ProfileDataType : Type 0 where
  profile_i64 profile_f64 profile_string profile_boolean : ProfileDataType
  profile_nil profile_array profile_struct_instance profile_any : ProfileDataType

-- the number of a tag in the enumeration
unfoldable pub tag : LoxIrType → ℕ
tag f64 = 0
tag unknown = 1
tag native_i64 = 2
tag native_string = 3
tag native_boolean = 4
tag native_nil = 5
tag native_array = 6
tag native_struct_instance = 7
tag lox_any = 8
tag lox_i64 = 9
tag lox_string = 10
tag lox_boolean = 11
tag lox_nil = 12
tag lox_array = 13
tag lox_struct_instance = 14

-- the number that follows the last tag
abbrev last_type : ℕ
last_type = 15

-- `a == b` on two tags
unfoldable pub same_tag : LoxIrType → LoxIrType → Bool
unfolding tag
same_tag a b = tag a == tag b

unfoldable pub profiled_type_to_lox_ir_type : ProfileDataType → LoxIrType
profiled_type_to_lox_ir_type profile_i64 = lox_i64
profiled_type_to_lox_ir_type profile_f64 = f64
profiled_type_to_lox_ir_type profile_boolean = lox_boolean
profiled_type_to_lox_ir_type profile_nil = lox_nil
profiled_type_to_lox_ir_type profile_array = lox_array
profiled_type_to_lox_ir_type profile_struct_instance = lox_struct_instance
profiled_type_to_lox_ir_type profile_any = lox_any
profiled_type_to_lox_ir_type profile_string = lox_string

unfoldable pub native_type_to_lox_ir_type : LoxIrType → LoxIrType
native_type_to_lox_ir_type native_i64 = lox_i64
native_type_to_lox_ir_type native_string = lox_string
native_type_to_lox_ir_type native_boolean = lox_boolean
native_type_to_lox_ir_type native_nil = lox_nil
native_type_to_lox_ir_type native_array = lox_array
native_type_to_lox_ir_type native_struct_instance = lox_struct_instance
native_type_to_lox_ir_type t = t

unfoldable pub lox_type_to_native_lox_ir_type : LoxIrType → LoxIrType
lox_type_to_native_lox_ir_type lox_i64 = native_i64
lox_type_to_native_lox_ir_type lox_string = native_string
lox_type_to_native_lox_ir_type lox_boolean = native_boolean
lox_type_to_native_lox_ir_type lox_nil = native_nil
lox_type_to_native_lox_ir_type lox_array = native_array
lox_type_to_native_lox_ir_type lox_struct_instance = native_struct_instance
lox_type_to_native_lox_ir_type t = t

unfoldable pub to_string_lox_ir_type : LoxIrType → String
to_string_lox_ir_type f64 = "F64"
to_string_lox_ir_type unknown = "Uknown"
to_string_lox_ir_type native_i64 = "Native I64"
to_string_lox_ir_type native_string = "Native String"
to_string_lox_ir_type native_boolean = "Native Boolean"
to_string_lox_ir_type native_nil = "Native Nil"
to_string_lox_ir_type native_array = "Native Array"
to_string_lox_ir_type native_struct_instance = "Native StructInstance"
to_string_lox_ir_type lox_any = "Lox Any"
to_string_lox_ir_type lox_i64 = "Lox I64"
to_string_lox_ir_type lox_string = "Lox String"
to_string_lox_ir_type lox_boolean = "Lox Boolean"
to_string_lox_ir_type lox_nil = "Lox Nil"
to_string_lox_ir_type lox_array = "Lox Array"
to_string_lox_ir_type lox_struct_instance = "Lox StructInstance"

unfoldable pub is_lox_lox_ir_type : LoxIrType → Bool
unfolding tag
is_lox_lox_ir_type type = leb (tag lox_any) (tag type)

unfoldable pub is_native_lox_ir_type : LoxIrType → Bool
unfolding tag
is_native_lox_ir_type type =
    leb (tag native_i64) (tag type) && leb (tag type) (tag native_struct_instance)

-- the result of `+`, `-`, `*` and `/`
unfoldable pub arithmetic_type : LoxIrType → LoxIrType → LoxIrType
unfolding same_tag
arithmetic_type left right =
    let some_string = same_tag left lox_string || same_tag right lox_string in
    let some_f64 = same_tag left f64 || same_tag right f64 in
    let some_any = same_tag left lox_any || same_tag right lox_any in
    if same_tag left unknown || same_tag right unknown
    then unknown
    else if some_string
    then lox_string
    else if some_any
    then lox_any
    else if some_f64
    then f64
    else lox_i64

unfoldable pub binary_to_lox_ir_type : Bytecode → LoxIrType → LoxIrType → Option LoxIrType
unfolding arithmetic_type
binary_to_lox_ir_type op_greater left right = some lox_boolean
binary_to_lox_ir_type op_equal left right = some lox_boolean
binary_to_lox_ir_type op_less left right = some lox_boolean
binary_to_lox_ir_type op_binary_op_and left right = some lox_i64
binary_to_lox_ir_type op_binary_op_or left right = some lox_i64
binary_to_lox_ir_type op_left_shift left right = some lox_i64
binary_to_lox_ir_type op_right_shift left right = some lox_i64
binary_to_lox_ir_type op_modulo left right = some lox_i64
binary_to_lox_ir_type op_sub left right = some (arithmetic_type left right)
binary_to_lox_ir_type op_mul left right = some (arithmetic_type left right)
binary_to_lox_ir_type op_div left right = some (arithmetic_type left right)
binary_to_lox_ir_type op_add left right = some (arithmetic_type left right)
binary_to_lox_ir_type _ left right = none

unfoldable pub is_same_format_lox_ir_type : LoxIrType → LoxIrType → Bool
unfolding same_tag is_lox_lox_ir_type is_native_lox_ir_type
is_same_format_lox_ir_type left right =
    if same_tag left f64 || same_tag right f64
    then true
    else is_lox_lox_ir_type left && is_lox_lox_ir_type right
      || is_native_lox_ir_type left && is_native_lox_ir_type right

-- the `switch` on the left type
unfoldable pub format_switch : LoxIrType → LoxIrType → Bool
unfolding same_tag
format_switch f64 right = same_tag right f64
format_switch native_i64 right = same_tag right lox_i64
format_switch unknown right = true
format_switch lox_any right = true
format_switch native_string right = same_tag right lox_string
format_switch native_boolean right = same_tag right lox_boolean
format_switch native_nil right = same_tag right lox_nil
format_switch native_array right = same_tag right lox_array
format_switch native_struct_instance right = same_tag right lox_struct_instance
format_switch lox_i64 right = same_tag right native_i64
format_switch lox_string right = same_tag right native_string
format_switch lox_boolean right = same_tag right native_boolean
format_switch lox_nil right = same_tag right native_nil
format_switch lox_array right = same_tag right native_array
format_switch lox_struct_instance right = same_tag right native_struct_instance

unfoldable pub is_format_equivalent_lox_ir_type : LoxIrType → LoxIrType → Bool
unfolding same_tag format_switch
is_format_equivalent_lox_ir_type left right =
    if same_tag left right then true else format_switch left right

-- the loop over the tags from `i` on, in `n` rounds
unfoldable pub no_other_type : ℕ → ℕ → U8Set → Bool
unfolding tag contains_u8_set
no_other_type zero i values = true
no_other_type (suc n) i values =
    let rest = no_other_type n (i + 1) values in
    if not (i == tag lox_any)
      && not (i == tag lox_i64)
      && not (i == tag f64)
      && contains_u8_set values (i + 1)
    then false
    else rest

unfoldable pub is_same_number_binay_format_lox_ir_type : LoxIrType → LoxIrType → Bool
unfolding tag init_u8_set add_u8_set no_other_type
is_same_number_binay_format_lox_ir_type left right =
    no_other_type last_type 0 (add_u8_set (add_u8_set init_u8_set (tag right + 1)) (tag left + 1))

unfoldable pub is_object_lox_ir_type : LoxIrType → Bool
is_object_lox_ir_type native_array = true
is_object_lox_ir_type native_struct_instance = true
is_object_lox_ir_type native_string = true
is_object_lox_ir_type lox_string = true
is_object_lox_ir_type lox_array = true
is_object_lox_ir_type lox_struct_instance = true
is_object_lox_ir_type _ = false
