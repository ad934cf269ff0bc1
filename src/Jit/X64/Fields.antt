-- ===== src/Jit/X64/Fields.antt =====
-- The fields of a prefix and of a ModRM byte, as sums.
use lox_vm.Prelude.{ℕ, ◌+◌, ◌*◌, ◌/◌, ◌%◌, ◌<◌, ◌≡◌, refl, true, Bool, arith, ◌==◌, ==_iff}
use lox_vm.Prelude.Bits.{below, below_sound}
use lox_vm.Jit.X64.Operands.{register_operand, to_32_bit_register}
use lox_vm.Jit.X64.Emit.{get_64_bit_binary_op_prefix, mod_reg_rm}

pub to_32_bit_register_lem : (r : ℕ) → r < 16 → to_32_bit_register r ≡ r % 8
unfolding below
to_32_bit_register_lem r h =
    (==_iff _ _).0 (below_sound 16 (λ x. to_32_bit_register x == x % 8) r refl h)

-- A test of two registers at once.
both : (ℕ → ℕ → Bool) → ℕ → Bool
both test x = test (x / 16) (x % 16)

both_sound :
    (test : ℕ → ℕ → Bool) (a b : ℕ)
    → below 256 (both test) ≡ true
    → a < 16
    → b < 16
    → test a b ≡ true
unfolding both
both_sound test a b h p q =
    let at = below_sound 256 (both test) (a * 16 + b) h (omega arith) in
    let high : (a * 16 + b) / 16 ≡ a = omega arith in
    let right : (a * 16 + b) % 16 ≡ b = omega arith in rw (high, right) at at

module _ (a b : ℕ) (p : a < 16) (q : b < 16) where
  pub mod_reg_rm-register : mod_reg_rm 0xC0 a b ≡ 192 + a % 8 * 8 + b % 8
  unfolding below both
  mod_reg_rm-register =
      (==_iff _ _).0
        (both_sound (λ a b. mod_reg_rm 0xC0 a b == 192 + a % 8 * 8 + b % 8) a b refl p q)

  pub mod_reg_rm-byte : mod_reg_rm 0x40 a b ≡ 64 + a % 8 * 8 + b % 8
  unfolding below both
  mod_reg_rm-byte =
      (==_iff _ _).0
        (both_sound (λ a b. mod_reg_rm 0x40 a b == 64 + a % 8 * 8 + b % 8) a b refl p q)

  pub mod_reg_rm-dword : mod_reg_rm 0x80 a b ≡ 128 + a % 8 * 8 + b % 8
  unfolding below both
  mod_reg_rm-dword =
      (==_iff _ _).0
        (both_sound (λ a b. mod_reg_rm 0x80 a b == 128 + a % 8 * 8 + b % 8) a b refl p q)

  pub prefix_lem :
      get_64_bit_binary_op_prefix (register_operand a) (register_operand b)
      ≡ 72 + 4 * (b / 8) + a / 8
  prefix_lem = ground arith
