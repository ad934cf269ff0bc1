-- ===== src/Shared/Values.antt =====
-- src/shared/types/types.h and types.c with NAN_BOXING defined: a value is a word of 64 bits.
use lox_vm.Prelude.{
  ℕ, zero, suc, ◌+◌, ◌-◌, ◌*◌, ◌/◌, ◌%◌, ◌^◌, Bool, true, false, not, ◌&&◌, ◌||◌, ◌==◌, ltb,
  bit_and, bit_or, if◌then◌else◌,
}
pub mod Classes

pub data LoxValueType : Type 0 where
  val_bool val_nil val_number val_obj : LoxValueType

pub data ObjectType : Type 0 where
  obj_string obj_function obj_native_function obj_struct_instance : ObjectType
  obj_struct_definition obj_package obj_array : ObjectType

-- `0x7ffc000000000000` and `0x8000000000000000`
abbrev pub float_qnan : ℕ
float_qnan = 9222246136947933184

abbrev pub float_sign_bit : ℕ
float_sign_bit = 9223372036854775808

abbrev pub nil_value : ℕ
nil_value = bit_or 1 float_qnan

abbrev pub false_value : ℕ
false_value = bit_or float_qnan 2

abbrev pub true_value : ℕ
true_value = bit_or float_qnan 3

unfoldable pub is_number : ℕ → Bool
is_number value = not (bit_and value float_qnan == float_qnan)

-- The number of binary places by which a word is too long for the 53 of a `double`.
unfoldable pub excess : ℕ → ℕ → ℕ
excess zero value = 0
excess (suc k) value = let rest = excess k (value / 2) in if ltb value (2 ^ 53) then 0 else suc rest

-- The nearest multiple of `2 ^ k`, the even one of two.
unfoldable pub nearest : ℕ → ℕ → ℕ
nearest zero value = value
nearest (suc k) value =
    let q = value / 2 ^ suc k in
    let r = value % 2 ^ suc k in
    if ltb (2 ^ k) r || (r == 2 ^ k && q % 2 == 1) then (q + 1) * 2 ^ suc k else q * 2 ^ suc k

-- `AS_NUMBER`: a word of 64 bits as a `double`, whose value is again a number.
unfoldable pub as_number : ℕ → ℕ
unfolding excess nearest
as_number value = nearest (excess 11 value) value

unfoldable pub is_nil : ℕ → Bool
is_nil value = value == nil_value

unfoldable pub as_bool : ℕ → Bool
as_bool value = value == true_value

unfoldable pub is_bool : ℕ → Bool
is_bool value = bit_or value 1 == true_value

unfoldable pub to_lox_value_bool : Bool → ℕ
to_lox_value_bool value = if value then true_value else false_value

unfoldable pub to_lox_value_object : ℕ → ℕ
to_lox_value_object pointer = bit_or (bit_or float_sign_bit float_qnan) pointer

-- the complement is taken in a word of 64 bits
unfoldable pub as_object : ℕ → ℕ
as_object value = bit_and value (2 ^ 64 - 1 - bit_or float_sign_bit float_qnan)

unfoldable pub is_object : ℕ → Bool
is_object value =
    bit_and value (bit_or float_qnan float_sign_bit) == bit_or float_qnan float_sign_bit

unfoldable pub cast_to_boolean : ℕ → Bool
unfolding as_bool
cast_to_boolean value = as_bool value

unfoldable pub get_lox_type : ℕ → LoxValueType
unfolding is_bool is_nil is_number is_object
get_lox_type value =
    if is_bool value
    then val_bool
    else if is_nil value
    then val_nil
    else if is_number value
    then val_number
    else if is_object value
    then val_obj
    else val_nil
