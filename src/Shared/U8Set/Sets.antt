-- ===== src/Shared/U8Set/Sets.antt =====
-- The operations of u8_set.c as operations on sets of bytes.
use lox_vm.Prelude.{
  ℕ, zero, suc, ◌+◌, ◌-◌, ◌*◌, ◌/◌, ◌%◌, ◌^◌, ◌<◌, ◌≡◌, refl, ap, ◌∙◌, not, ◌&&◌, ◌==◌, ==_iff,
  bit_and, bit_xor, get_or, length, arith, Bool-cases, inl, inr, if◌then◌else◌,
}
use Prim.Native.Nat.{differ}
use lox_vm.Prelude.Binary.{bit, bit-lt, bit-bit_xor, bit-power, bit-zero, bit-shift}
use lox_vm.Shared.U8Set.{U8Set, complement, remove_u8_set}
use lox_vm.Shared.U8Set.Members.{member, slot_lem, same_place, changed}

-- the word with which `remove_u8_set` flips the digit of a value
abbrev flipped : ℕ → ℕ → ℕ
flipped d j = bit_and (complement ((d + (2 ^ 64 - 1)) % 2 ^ 64)) 0x01 * 2 ^ j

pub flipped_lem : (d j : ℕ) → d < 2 → flipped d j ≡ d * 2 ^ j
flipped_lem zero j h = refl
flipped_lem (suc zero) j h = refl
flipped_lem (suc (suc d)) j h = absurd (omega arith)

differ_zero : (x : ℕ) → differ x 0 ≡ x
differ_zero zero = refl
differ_zero (suc x) = refl

differ_self : (x : ℕ) → differ x x ≡ 0
differ_self zero = refl
differ_self (suc x) = differ_self x

bit-scaled : (d i j : ℕ) → d < 2 → bit i (d * 2 ^ j) ≡ (if i == j then d else 0)
bit-scaled zero i j h =
    let none : 0 * 2 ^ j ≡ 0 = omega arith in ap (bit i) none ∙ bit-zero i ∙ ground arith
bit-scaled (suc zero) i j h =
    let one : 1 * 2 ^ j ≡ 2 ^ j = omega arith in ap (bit i) one ∙ bit-power i j
bit-scaled (suc (suc d)) i j h = absurd (omega arith)

-- Flipping a digit that is set, or nothing.
bit-flip :
    (d w i j : ℕ)
    → bit j w ≡ d
    → d < 2
    → (bit i (bit_xor w (d * 2 ^ j)) == 1) ≡ (not (i == j) && bit i w == 1)
bit-flip d w i j e h =
    rw (bit-bit_xor i w (d * 2 ^ j), bit-scaled d i j h)
      (elim (Bool-cases (i == j)) [
        | inl k ↦ let same : i ≡ j = (==_iff i j).0 k in rw (k, same, e, differ_self d) refl
        | inr k ↦ rw (k, differ_zero (bit i w)) refl
      ])

pub member-remove :
    (s : U8Set) (u v : ℕ)
    → length s.slot_bit_maps ≡ 4
    → v < 256
    → member (remove_u8_set s v).slot_bit_maps u ≡ (not (u == v) && member s.slot_bit_maps u)
unfolding remove_u8_set
member-remove s u v h q =
    let w = get_or s.slot_bit_maps (v % 4) 0 in
    let d = bit (v / 4) w in
    rw
      (
        slot_lem v q,
        bit-shift (v / 4) w,
        flipped_lem d (v / 4) (bit-lt (v / 4) w),
        changed s u v (bit_xor w (d * 2 ^ (v / 4))) h,
        bit-flip d w (u / 4) (v / 4) refl (bit-lt (v / 4) w),
        same_place u v,
      )
      (elim (Bool-cases (u % 4 == v % 4)) [
        | inl e ↦ let same : u % 4 ≡ v % 4 = (==_iff _ _).0 e in rw (e, same) refl
        | inr e ↦ rw e refl
      ])
