-- ===== src/Jit/Types/Formats.antt =====
-- The native and the boxed format of a type, of lox_ir_type.c.
use lox_vm.Prelude.{Bool, true, false, not, ◌&&◌, ◌||◌, ◌≡◌, refl, sym}
use lox_vm.Jit.Types.{
  LoxIrType, f64, unknown, lox_any, lox_i64, same_tag, native_type_to_lox_ir_type,
  is_format_equivalent_lox_ir_type, is_same_number_binay_format_lox_ir_type,
}
use lox_vm.Jit.Types.Finite.{on_all, on_all_sound}

-- Two Boolean values agree.
abbrev agree : Bool → Bool → Bool
agree true b = b
agree false b = not b

agree_sound : (a b : Bool) → agree a b ≡ true → a ≡ b
agree_sound true true h = refl
agree_sound true false h = sym h
agree_sound false true h = h
agree_sound false false h = refl

agree-on_all :
    (f g : LoxIrType → LoxIrType → Bool)
    → on_all (λ a. on_all (λ b. agree (f a b) (g a b))) ≡ true
    → (a b : LoxIrType) → f a b ≡ g a b
agree-on_all f g h a b = agree_sound (f a b) (g a b) (
    on_all_sound (λ b. agree (f a b) (g a b))
      (on_all_sound (λ a. on_all (λ b. agree (f a b) (g a b))) h a) b)

-- Two types are equivalent exactly if the left one is unknown or any, or if they are boxed to the same
-- type.
pub is_format_equivalent-boxed :
    (a b : LoxIrType)
    → is_format_equivalent_lox_ir_type a b ≡ (
        same_tag a unknown
        || same_tag a lox_any
        || same_tag (native_type_to_lox_ir_type a) (native_type_to_lox_ir_type b))
unfolding is_format_equivalent_lox_ir_type native_type_to_lox_ir_type on_all same_tag
is_format_equivalent-boxed a b =
    agree-on_all is_format_equivalent_lox_ir_type
      (λ a b.
        same_tag a unknown
        || same_tag a lox_any
        || same_tag (native_type_to_lox_ir_type a) (native_type_to_lox_ir_type b))
      refl a b

-- Both types are numbers exactly if each of them is `any`, a boxed integer or a float: the loop over the
-- tags finds every other one.
pub is_same_number_binay_format-numbers :
    (a b : LoxIrType)
    → is_same_number_binay_format_lox_ir_type a b ≡ (
        (same_tag a lox_any || same_tag a lox_i64 || same_tag a f64)
        && (same_tag b lox_any || same_tag b lox_i64 || same_tag b f64))
unfolding is_same_number_binay_format_lox_ir_type on_all same_tag
is_same_number_binay_format-numbers a b =
    agree-on_all is_same_number_binay_format_lox_ir_type
      (λ a b.
        (same_tag a lox_any || same_tag a lox_i64 || same_tag a f64)
        && (same_tag b lox_any || same_tag b lox_i64 || same_tag b f64))
      refl a b
