-- ===== src/Prelude/Masks.antt =====
-- The upper digits of a word, which a mask selects, and words that share no digit.
use Prim.Native.Nat.{
  ℕ, zero, suc, ◌+◌, ◌-◌, ◌*◌, ◌/◌, ◌%◌, ◌^◌, ◌≤◌, ◌<◌, max, bit_and, bit_or, bit_or-bitwise,
}
use mathlib.Core.Path.{◌≡◌, ap, sym, ◌∙◌}
use native.Mathlib.Omega.{arith}
use native.Mathlib.Nat.{div-div-eq-div-mul, mod-eq_of_lt, add-mul-mod_self_right}
use lox_vm.Prelude.Bits.{ones, low, shl, shr, bit_and-ones, bit_and-shl, low_self}
use lox_vm.Prelude.Binary.{bit_or_digit}

pub shl-eq : (k a : ℕ) → shl k a ≡ a * 2 ^ k
unfolding shl
shl-eq zero a = omega arith
shl-eq (suc k) a = grind (arith, shl-eq k a)

shr-eq : (k a : ℕ) → shr k a ≡ a / 2 ^ k
unfolding shr
shr-eq zero a = omega arith
shr-eq (suc k) a = shr-eq k (a / 2) ∙ div-div-eq-div-mul a 2 (2 ^ k) ∙ ap (λ d. a / d) twice
  where
    twice : 2 * 2 ^ k ≡ 2 ^ suc k
    twice = omega arith

-- The digits from the place 50 on, which the masks of boxed values select.
pub bit_and-high : (v m : ℕ) → bit_and v (m * 2 ^ 50) ≡ bit_and (v / 2 ^ 50) m * 2 ^ 50
bit_and-high v m =
    ap (bit_and v) (sym (shl-eq 50 m))
    ∙ bit_and-shl 50 v m
    ∙ shl-eq 50 (bit_and (shr 50 v) m)
    ∙ ap (λ x. bit_and x m * 2 ^ 50) (shr-eq 50 v)

pub bit_and_13 : (x : ℕ) → bit_and x 8191 ≡ x % 8192
unfolding ones low
bit_and_13 x = bit_and-ones 13 x ∙ omega arith

pub bit_and_14 : (x : ℕ) → x < 16384 → bit_and x 16383 ≡ x
unfolding ones shl
bit_and_14 x h = bit_and-ones 14 x ∙ low_self 14 x h

low-shr : (k a : ℕ) → low k a + shr k a * 2 ^ k ≡ a
unfolding low shr
low-shr zero a = omega arith
low-shr (suc k) a = grind (arith, low-shr k (a / 2))

pub bit_and_50 : (x : ℕ) → bit_and x 1125899906842623 ≡ x % 2 ^ 50
unfolding ones
bit_and_50 x = bit_and-ones 50 x ∙ omega (arith, low-shr 50 x, ap (λ q. q * 2 ^ 50) (shr-eq 50 x))

-- A word that ends in zeros, joined with a word that fits into them.
bit_or_right : (n a : ℕ) → a ≤ n → bit_or a 0 ≡ a
bit_or_right zero zero h = bit_or-bitwise 0 0
bit_or_right zero (suc a) h = absurd (omega arith)
bit_or_right (suc n) zero h = bit_or-bitwise 0 0
bit_or_right (suc n) (suc a) h =
    omega (arith, bit_or_digit (suc a) 0, bit_or_right n (suc a / 2) (omega arith))

pub bit_or-shl : (k a b : ℕ) → b < shl k 1 → bit_or (shl k a) b ≡ shl k a + b
unfolding shl
bit_or-shl zero a zero h = omega (arith, bit_or_right a a (omega arith))
bit_or-shl zero a (suc b) h = absurd (omega arith)
bit_or-shl (suc k) a b h =
    bit_or_digit (2 * shl k a) b
    ∙ ap (λ n. bit_or n (b / 2) * 2 + max (2 * shl k a % 2) (b % 2)) (half (shl k a))
    ∙ omega (arith, bit_or-shl k a (b / 2) (omega arith))
  where
    half : (m : ℕ) → 2 * m / 2 ≡ m
    half m = omega arith

pub bit_or_one : (a : ℕ) → bit_or a 1 ≡ a / 2 * 2 + 1
bit_or_one a = omega (arith, bit_or_digit a 1, bit_or_right (a / 2) (a / 2) (omega arith))

low-lt : (k a : ℕ) → low k a < 2 ^ k
unfolding low
low-lt zero a = omega arith
low-lt (suc k) a = omega (arith, low-lt k (a / 2))

ones-eq : (k : ℕ) → ones k ≡ 2 ^ k - 1
unfolding ones
ones-eq zero = omega arith
ones-eq (suc k) = omega (arith, ones-eq k, low-lt k 0)

pub bit_and_ones : (k a : ℕ) → bit_and a (2 ^ k - 1) ≡ a % 2 ^ k
bit_and_ones k a =
    ap (bit_and a) (sym (ones-eq k))
    ∙ bit_and-ones k a
    ∙ sym (mod-eq_of_lt (low-lt k a))
    ∙ sym (add-mul-mod_self_right (low k a) (shr k a) (2 ^ k))
    ∙ ap (λ x. x % 2 ^ k) (low-shr k a)

pub power_positive : (k : ℕ) → 0 < 2 ^ k
power_positive zero = omega arith
power_positive (suc k) = omega (arith, power_positive k)
