-- ===== src/Prelude/Bits.antt =====
-- `bit_and` with a mask of low or of high bits, and checks of small tables by evaluation.
use Prim.Native.Nat.{
  ℕ, zero, suc, ◌+◌, ◌*◌, ◌/◌, ◌%◌, ◌^◌, ◌≤◌, ◌<◌, min, bit_and, digits, bit_and-bitwise,
}
use mathlib.Core.Path.{◌≡◌, refl, ap, ◌∙◌}
use mathlib.Core.Bool.{Bool, true, false, ◌&&◌}
use native.Mathlib.Omega.{arith}
use lox_vm.Prelude.Tests.{◌==◌}

-- Whether a test passes at every number below a bound.
unfoldable pub below : ℕ → (ℕ → Bool) → Bool
below zero test = true
below (suc n) test = test n && below n test

pub below_sound : (n : ℕ) (test : ℕ → Bool) (x : ℕ) → below n test ≡ true → x < n → test x ≡ true
unfolding below
below_sound zero test x h lt = absurd (omega arith)
below_sound (suc n) test x h lt = ground (arith, below_sound n test x)

-- The digits of a conjunction do not depend on how many rounds are given for them.
conjunction : ℕ → ℕ → ℕ → ℕ
conjunction n a b = digits (λ _. zero) min n a b

conjunction_rounds : (n m a b : ℕ) → a ≤ n → a ≤ m → conjunction n a b ≡ conjunction m a b
unfolding conjunction
conjunction_rounds zero zero a b h k = refl
conjunction_rounds zero (suc m) zero b h k = refl
conjunction_rounds (suc n) zero zero b h k = refl
conjunction_rounds (suc n) (suc m) zero b h k = refl
conjunction_rounds zero (suc m) (suc a) b h k = absurd (omega arith)
conjunction_rounds (suc n) zero (suc a) b h k = absurd (omega arith)
conjunction_rounds (suc n) (suc m) (suc a) b h k =
    ap (λ q. q * 2 + min (suc a % 2) (b % 2))
      (conjunction_rounds n m (suc a / 2) (b / 2) (omega arith) (omega arith))

bit_and-conjunction : (n a b : ℕ) → a ≤ n → bit_and a b ≡ conjunction n a b
unfolding conjunction
bit_and-conjunction n a b h = bit_and-bitwise a b ∙ conjunction_rounds a n a b (omega arith) h

pub bit_and_digit : (a b : ℕ) → bit_and a b ≡ bit_and (a / 2) (b / 2) * 2 + min (a % 2) (b % 2)
unfolding conjunction
bit_and_digit zero b =
    omega (arith, bit_and-conjunction 0 0 b, bit_and-conjunction 0 (0 / 2) (b / 2))
bit_and_digit (suc a) b =
    omega (arith, bit_and-conjunction (suc a) (suc a) b, bit_and-conjunction a (suc a / 2) (b / 2))

unfoldable pub ones : ℕ → ℕ
ones zero = 0
ones (suc k) = 2 * ones k + 1

unfoldable pub low : ℕ → ℕ → ℕ
low zero a = 0
low (suc k) a = low k (a / 2) * 2 + a % 2

unfoldable pub shl : ℕ → ℕ → ℕ
shl zero a = a
shl (suc k) a = 2 * shl k a

unfoldable pub shr : ℕ → ℕ → ℕ
shr zero a = a
shr (suc k) a = shr k (a / 2)

pub nothing-bit_and : (n a : ℕ) → a ≤ n → bit_and a 0 ≡ 0
nothing-bit_and zero zero h = bit_and-bitwise 0 0
nothing-bit_and zero (suc a) h = absurd (omega arith)
nothing-bit_and (suc n) zero h = omega (arith, bit_and-bitwise 0 0)
nothing-bit_and (suc n) (suc a) h =
    omega (arith, bit_and_digit (suc a) 0, nothing-bit_and n (suc a / 2) (omega arith))

pub bit_and-ones : (k a : ℕ) → bit_and a (ones k) ≡ low k a
unfolding ones low
bit_and-ones zero a = nothing-bit_and a a (omega arith)
bit_and-ones (suc k) a =
    bit_and_digit a (2 * ones k + 1)
    ∙ ap (λ m. bit_and (a / 2) m * 2 + min (a % 2) ((2 * ones k + 1) % 2)) (half (ones k))
    ∙ omega (arith, bit_and-ones k (a / 2))
  where
    half : (m : ℕ) → (2 * m + 1) / 2 ≡ m
    half m = omega arith

pub bit_and-shl : (k a m : ℕ) → bit_and a (shl k m) ≡ shl k (bit_and (shr k a) m)
unfolding shl shr
bit_and-shl zero a m = refl
bit_and-shl (suc k) a m =
    bit_and_digit a (2 * shl k m)
    ∙ ap (λ n. bit_and (a / 2) n * 2 + min (a % 2) (2 * shl k m % 2)) (half (shl k m))
    ∙ omega (arith, bit_and-shl k (a / 2) m)
  where
    half : (m : ℕ) → 2 * m / 2 ≡ m
    half m = omega arith

pub low_self : (k a : ℕ) → a < shl k 1 → low k a ≡ a
unfolding low shl
low_self zero a h = omega arith
low_self (suc k) a h = omega (arith, low_self k (a / 2) (omega arith))

shr-lt : (j k a : ℕ) → a < shl j (shl k 1) → shr j a < shl k 1
unfolding shr shl
shr-lt zero k a h = h
shr-lt (suc j) k a h = shr-lt j k (a / 2) (omega arith)

shr-zero : (k a : ℕ) → a < shl k 1 → shr k a ≡ 0
unfolding shr shl
shr-zero zero a h = omega arith
shr-zero (suc k) a h = shr-zero k (a / 2) (omega arith)

shr-pos : (k a : ℕ) → shl k 1 ≤ a → 0 < shr k a
unfolding shr shl
shr-pos zero a h = h
shr-pos (suc k) a h = shr-pos k (a / 2) (omega arith)

shl-pos : (k a : ℕ) → 0 < a → 0 < shl k a
unfolding shl
shl-pos zero a h = h
shl-pos (suc k) a h = omega (arith, shl-pos k a h)

shl-zero : (k : ℕ) → shl k 0 ≡ 0
unfolding shl
shl-zero zero = refl
shl-zero (suc k) = omega (arith, shl-zero k)

-- The lowest byte.
pub bit_and_byte : (a : ℕ) → bit_and a 0xFF ≡ a % 256
unfolding ones low
bit_and_byte a = bit_and-ones 8 a ∙ omega arith

-- The upper half of a word of 64 bits is zero exactly below 2 ^ 32.
high_zero : (a : ℕ) → a < 2 ^ 32 → bit_and a 0xFFFFFFFF00000000 ≡ 0
unfolding shl ones
high_zero a h =
    bit_and-shl 32 a (ones 32)
    ∙ ap (λ x. shl 32 (bit_and x (ones 32))) (shr-zero 32 a h)
    ∙ ap (shl 32) (bit_and-bitwise 0 (ones 32))
    ∙ shl-zero 32

high_pos : (a : ℕ) → 2 ^ 32 ≤ a → a < 2 ^ 64 → 0 < bit_and a 0xFFFFFFFF00000000
unfolding shl ones
high_pos a h k =
    let x = shr 32 a in
    let small : x < shl 32 1 = shr-lt 32 32 a k in
    let same : bit_and x (ones 32) ≡ x = bit_and-ones 32 x ∙ low_self 32 x small in
    let up : 0 < shl 32 (bit_and x (ones 32)) =
      shl-pos 32 (bit_and x (ones 32)) (omega (arith, same, shr-pos 32 a h)) in
    omega (arith, up, bit_and-shl 32 a (ones 32))

pub high_test :
    (a : ℕ)
    → a < 2 ^ 64
    → ((bit_and a 0xFFFFFFFF00000000 == 0) ≡ true → a < 2 ^ 32)
      × ((bit_and a 0xFFFFFFFF00000000 == 0) ≡ false → 2 ^ 32 ≤ a)
high_test a k = ground (arith, high_zero a, high_pos a)
