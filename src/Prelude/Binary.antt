-- ===== src/Prelude/Binary.antt =====
-- The binary digits of a word, and what the bitwise operations do to each.
use Prim.Native.Nat.{
  ℕ, zero, suc, ◌+◌, ◌-◌, ◌*◌, ◌/◌, ◌%◌, ◌^◌, ◌≤◌, ◌<◌, min, max, bit_and, bit_or, bit_xor, digits,
  differ, bit_or-bitwise, bit_xor-bitwise, bit_and-bitwise,
}
use mathlib.Core.Path.{◌≡◌, refl, ap, sym, ◌∙◌}
use native.Mathlib.Omega.{arith}
use native.Mathlib.Nat.{div-div-eq-div-mul}
use lox_vm.Prelude.Tests.{◌==◌, if◌then◌else◌}
use lox_vm.Prelude.Bits.{bit_and_digit, nothing-bit_and}

-- The digit with the weight `2 ^ i`.
unfoldable pub bit : ℕ → ℕ → ℕ
bit zero w = w % 2
bit (suc i) w = bit i (w / 2)

pub bit-lt : (i w : ℕ) → bit i w < 2
unfolding bit
bit-lt zero w = omega arith
bit-lt (suc i) w = bit-lt i (w / 2)

-- An operation that joins the digits of two words and keeps those of the second alone. Its digits do
-- not depend on how many rounds are given for them.
module _ (f : ℕ → ℕ → ℕ) where
  joined : ℕ → ℕ → ℕ → ℕ
  joined n a b = digits (λ y. y) f n a b

  joined_rounds : (n m a b : ℕ) → a ≤ n → a ≤ m → joined n a b ≡ joined m a b
  unfolding joined
  joined_rounds zero zero a b h k = refl
  joined_rounds zero (suc m) zero b h k = refl
  joined_rounds (suc n) zero zero b h k = refl
  joined_rounds (suc n) (suc m) zero b h k = refl
  joined_rounds zero (suc m) (suc a) b h k = absurd (omega arith)
  joined_rounds (suc n) zero (suc a) b h k = absurd (omega arith)
  joined_rounds (suc n) (suc m) (suc a) b h k =
      ap (λ q. q * 2 + f (suc a % 2) (b % 2))
        (joined_rounds n m (suc a / 2) (b / 2) (omega arith) (omega arith))

  module _ (g : ℕ → ℕ → ℕ) (law : (a b : ℕ) → g a b ≡ joined a a b)
      (alone : (y : ℕ) → f 0 y ≡ y) where
    keeps : (b : ℕ) → g 0 b ≡ b
    unfolding joined
    keeps b = law 0 b

    joined_digit : (a b : ℕ) → g a b ≡ g (a / 2) (b / 2) * 2 + f (a % 2) (b % 2)
    unfolding joined
    joined_digit zero b = omega (arith, law 0 b, law 0 (b / 2), alone (b % 2))
    joined_digit (suc a) b = omega (
      arith,
      law (suc a) b,
      law (suc a / 2) (b / 2),
      joined_rounds (suc a / 2) a (suc a / 2) (b / 2) (omega arith) (omega arith),
    )

    bit-joined :
        ((x y : ℕ) → x < 2 → y < 2 → f x y < 2)
        → (i a b : ℕ) → bit i (g a b) ≡ f (bit i a) (bit i b)
    unfolding bit
    bit-joined small zero a b =
        omega (arith, joined_digit a b, small (a % 2) (b % 2) (omega arith) (omega arith))
    bit-joined small (suc i) a b =
        let half : g a b / 2 ≡ g (a / 2) (b / 2) =
          omega (arith, joined_digit a b, small (a % 2) (b % 2) (omega arith) (omega arith)) in
        ap (bit i) half ∙ bit-joined small i (a / 2) (b / 2)

    joined-lt :
        ((x y : ℕ) → x < 2 → y < 2 → f x y < 2)
        → (n a b : ℕ) → a < 2 ^ n
        → b < 2 ^ n
        → g a b < 2 ^ n
    joined-lt small zero a b p q =
        let none : a ≡ 0 = omega arith in rw none (omega (arith, keeps b))
    joined-lt small (suc n) a b p q = omega (
      arith,
      joined_digit a b,
      small (a % 2) (b % 2) (omega arith) (omega arith),
      joined-lt small n (a / 2) (b / 2) (omega arith) (omega arith),
    )

and_half :
    (a b : ℕ)
    → (bit_and a b / 2 ≡ bit_and (a / 2) (b / 2)) × (bit_and a b % 2 ≡ min (a % 2) (b % 2))
and_half a b = (omega (arith, bit_and_digit a b), omega (arith, bit_and_digit a b))

pub bit-bit_and : (i a b : ℕ) → bit i (bit_and a b) ≡ min (bit i a) (bit i b)
unfolding bit
bit-bit_and zero a b = (and_half a b).1
bit-bit_and (suc i) a b = ap (bit i) (and_half a b).0 ∙ bit-bit_and i (a / 2) (b / 2)

pub bit_or_digit : (a b : ℕ) → bit_or a b ≡ bit_or (a / 2) (b / 2) * 2 + max (a % 2) (b % 2)
unfolding joined
bit_or_digit = joined_digit max bit_or bit_or-bitwise (λ y. omega arith)

pub bit-bit_or : (i a b : ℕ) → bit i (bit_or a b) ≡ max (bit i a) (bit i b)
unfolding joined
bit-bit_or = bit-joined max bit_or bit_or-bitwise (λ y. omega arith) (λ x y p q. omega arith)

differ-lt : (x y : ℕ) → x < 2 → y < 2 → differ x y < 2
differ-lt zero y p q = q
differ-lt (suc x) zero p q = p
differ-lt (suc x) (suc y) p q = differ-lt x y (omega arith) (omega arith)

pub bit-bit_xor : (i a b : ℕ) → bit i (bit_xor a b) ≡ differ (bit i a) (bit i b)
unfolding joined
bit-bit_xor = bit-joined differ bit_xor bit_xor-bitwise (λ y. refl) differ-lt

power_half : (j : ℕ) → (2 ^ suc j / 2 ≡ 2 ^ j) × (2 ^ suc j % 2 ≡ 0)
power_half j = (omega arith, omega arith)

product : (x j : ℕ) → x * 2 ^ suc j ≡ x * 2 ^ j * 2
product x j = grind arith

-- One digit alone.
pub bit_and-power : (j w : ℕ) → bit_and w (2 ^ j) ≡ bit j w * 2 ^ j
unfolding bit
bit_and-power zero w =
    omega (arith, bit_and_digit w 1, nothing-bit_and (w / 2) (w / 2) (omega arith))
bit_and-power (suc j) w = omega (
  arith,
  bit_and_digit w (2 ^ suc j),
  bit_and-power j (w / 2),
  ap (bit_and (w / 2)) (power_half j).0,
  (power_half j).1,
  product (bit j (w / 2)) j,
)

pub bit-zero : (i : ℕ) → bit i 0 ≡ 0
unfolding bit
bit-zero zero = refl
bit-zero (suc i) = bit-zero i

pub bit-power : (i j : ℕ) → bit i (2 ^ j) ≡ (if i == j then 1 else 0)
unfolding bit
bit-power zero zero = refl
bit-power zero (suc j) = ground (arith, power_half j)
bit-power (suc i) zero = bit-zero i ∙ ground arith
bit-power (suc i) (suc j) = ap (bit i) (power_half j).0 ∙ bit-power i j ∙ ground arith

-- The digits that are not set, among the lowest `n`.
pub bit-complement : (n i x : ℕ) → i < n → x < 2 ^ n → bit i (2 ^ n - 1 - x) ≡ 1 - bit i x
unfolding bit
bit-complement zero i x h k = absurd (omega arith)
bit-complement (suc n) zero x h k = omega arith
bit-complement (suc n) (suc i) x h k =
    let half : (2 ^ suc n - 1 - x) / 2 ≡ 2 ^ n - 1 - x / 2 = omega arith in
    ap (bit i) half ∙ bit-complement n i (x / 2) (omega arith) (omega arith)

pub bit_or-lt : (n a b : ℕ) → a < 2 ^ n → b < 2 ^ n → bit_or a b < 2 ^ n
unfolding joined
bit_or-lt = joined-lt max bit_or bit_or-bitwise (λ y. omega arith) (λ x y p q. omega arith)

pub bit_xor-lt : (n a b : ℕ) → a < 2 ^ n → b < 2 ^ n → bit_xor a b < 2 ^ n
unfolding joined
bit_xor-lt = joined-lt differ bit_xor bit_xor-bitwise (λ y. refl) differ-lt

pub bit_and-lt : (n a b : ℕ) → a < 2 ^ n → bit_and a b < 2 ^ n
bit_and-lt zero a b p =
    let none : a ≡ 0 = omega arith in rw none (omega (arith, bit_and-bitwise 0 b))
bit_and-lt (suc n) a b p =
    omega (arith, bit_and_digit a b, bit_and-lt n (a / 2) (b / 2) (omega arith))

-- A digit by its weight.
pub bit-shift : (i w : ℕ) → w / 2 ^ i % 2 ≡ bit i w
unfolding bit
bit-shift zero w = omega arith
bit-shift (suc i) w =
    let twice : 2 ^ suc i ≡ 2 * 2 ^ i = omega arith in
    ap (λ d. w / d % 2) twice
    ∙ ap (λ q. q % 2) (sym (div-div-eq-div-mul w 2 (2 ^ i)))
    ∙ bit-shift i (w / 2)
