-- ===== src/Shared/Values/Classes.antt =====
-- The classes of the boxed values of types.h.
use lox_vm.Prelude.{
  ℕ, zero, suc, ◌+◌, ◌-◌, ◌*◌, ◌/◌, ◌%◌, ◌^◌, ◌≤◌, ◌<◌, bit_and, bit_or, ◌≡◌, refl, ap, ◌∙◌, ◌≢◌,
  ◌↔◌, ◌⊎◌, Bool, true, false, arith, if◌then◌else◌,
}
use lox_vm.Prelude.Masks.{
  bit_or-shl, bit_or_one, bit_and-high, bit_and_13, bit_and_14, bit_and_50, shl-eq,
}
use lox_vm.Shared.Values.{
  LoxValueType, val_bool, val_nil, val_number, val_obj, float_qnan, nil_value, false_value,
  true_value, excess, nearest, as_number, is_number, is_nil, as_bool, is_bool, to_lox_value_bool,
  to_lox_value_object, as_object, is_object, cast_to_boolean, get_lox_type,
}

top : (v : ℕ) → v < 2 ^ 64 → bit_and v 18445618173802708992 ≡ v / 2 ^ 50 * 2 ^ 50
top v h = bit_and-high v 16383 ∙ ap (λ x. x * 2 ^ 50) (bit_and_14 (v / 2 ^ 50) (omega arith))

quiet : (v : ℕ) → bit_and v float_qnan ≡ v / 2 ^ 50 % 8192 * 2 ^ 50
quiet v = bit_and-high v 8191 ∙ ap (λ x. x * 2 ^ 50) (bit_and_13 (v / 2 ^ 50))

pub is_object_iff : (v : ℕ) → v < 2 ^ 64 → (is_object v ≡ true) ↔ (2 ^ 64 - 2 ^ 50 ≤ v)
unfolding is_object
is_object_iff v h = ground (arith, top v h)

pub is_number_iff : (v : ℕ) → (is_number v ≡ true) ↔ (v / 2 ^ 50 % 8192 ≢ 8191)
unfolding is_number
is_number_iff v = ground (arith, quiet v)

pub is_bool_iff : (v : ℕ) → (is_bool v ≡ true) ↔ ((v ≡ false_value) ⊎ (v ≡ true_value))
unfolding is_bool
is_bool_iff v = ground (arith, bit_or_one v)

pub to_lox_value_object-eq :
    (pointer : ℕ) → pointer < 2 ^ 50 → to_lox_value_object pointer ≡ 2 ^ 64 - 2 ^ 50 + pointer
unfolding to_lox_value_object
to_lox_value_object-eq pointer h = omega (
  arith,
  ap (λ x. bit_or x pointer) (shl-eq 50 16383),
  bit_or-shl 50 16383 pointer (omega (arith, shl-eq 50 1)),
  shl-eq 50 16383,
)

as_object-eq : (v : ℕ) → as_object v ≡ v % 2 ^ 50
unfolding as_object
as_object-eq v = bit_and_50 v

-- At most one of the tests of `get_lox_type` passes.
abbrev pub indicator : Bool → ℕ
indicator b = if b then 1 else 0

pub classes_exclusive :
    (v : ℕ)
    → v < 2 ^ 64
    → indicator (is_bool v)
        + indicator (is_nil v)
        + indicator (is_number v)
        + indicator (is_object v)
      ≤ 1
unfolding is_nil
classes_exclusive v h = ground (arith, is_bool_iff v, is_number_iff v, is_object_iff v h)

excess_small : (k v : ℕ) → v < 2 ^ 53 → excess k v ≡ 0
unfolding excess
excess_small zero v h = refl
excess_small (suc k) v h = ground arith

pub as_number_small : (v : ℕ) → v < 2 ^ 53 → as_number v ≡ v
unfolding as_number nearest
as_number_small v h = ap (λ k. nearest k v) (excess_small 11 v h)

-- What a word stands for, independently of its layout: a number is one below the first quiet NaN, a
-- pointer has fewer than 50 bits.
pub data Meaning : Type 0 where
  nothing : Meaning
  boolean : Bool → Meaning
  number_value object_value : ℕ → Meaning

abbrev pub Fits : Meaning → Type 0
Fits (number_value n) = n < float_qnan
Fits (object_value p) = p < 2 ^ 50
Fits _ = Unit

abbrev pub box : Meaning → ℕ
box nothing = nil_value
box (boolean b) = to_lox_value_bool b
box (number_value n) = n
box (object_value p) = to_lox_value_object p

abbrev pub read_as : LoxValueType → ℕ → Meaning
read_as val_bool v = boolean (cast_to_boolean v)
read_as val_nil v = nothing
read_as val_number v = number_value (as_number v)
read_as val_obj v = object_value (as_object v)

-- A number is a `double` when it is read, so that one of more than 53 bits loses digits.
abbrev pub rounded : Meaning → Meaning
rounded (number_value n) = number_value (as_number n)
rounded x = x

abbrev pub IsExact : Meaning → Type 0
IsExact (number_value n) = n < 2 ^ 53
IsExact _ = Unit

rounded_exact : (x : Meaning) → IsExact x → rounded x ≡ x
rounded_exact nothing h = refl
rounded_exact (boolean b) h = refl
rounded_exact (number_value n) h = ap number_value (as_number_small n h)
rounded_exact (object_value p) h = refl

boxed_number : (n : ℕ) → n < float_qnan → get_lox_type n ≡ val_number
unfolding get_lox_type is_nil
boxed_number n h = ground (arith, is_bool_iff n, is_number_iff n)

boxed_object : (p : ℕ) → p < 2 ^ 50 → get_lox_type (to_lox_value_object p) ≡ val_obj
unfolding get_lox_type is_nil
boxed_object p h = ground (
  arith,
  to_lox_value_object-eq p h,
  is_bool_iff (to_lox_value_object p),
  is_number_iff (to_lox_value_object p),
  is_object_iff (to_lox_value_object p),
)

read_back : (x : Meaning) → Fits x → read_as (get_lox_type (box x)) (box x) ≡ rounded x
unfolding get_lox_type is_nil is_bool is_number is_object cast_to_boolean as_bool to_lox_value_bool
read_back nothing h = refl
read_back (boolean true) h = refl
read_back (boolean false) h = refl
read_back (number_value n) h = ap (λ t. read_as t n) (boxed_number n h)
read_back (object_value p) h =
    ap (λ t. read_as t (to_lox_value_object p)) (boxed_object p h)
    ∙ ap object_value
        (omega (arith, to_lox_value_object-eq p h, as_object-eq (to_lox_value_object p)))

-- A value is put into a word of 64 bits: `nil`, a boolean, a number below the first quiet NaN or a pointer
-- of fewer than 50 bits. Reading the word by the type that get_lox_type tells gives the value back, a number
-- as the nearest `double`; a number below 2 ^ 53 comes back as it is.
pub read_as-box :
    (x : Meaning)
    → Fits x
    → (read_as (get_lox_type (box x)) (box x) ≡ rounded x) × (IsExact x → rounded x ≡ x)
read_as-box x h = (read_back x h, rounded_exact x)
