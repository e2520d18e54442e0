-- ===== src/Common/Xor.antt =====
-- Laws of `^` at variables.
use Prim.Native.Nat.{ℕ, zero, suc, ◌+◌, ◌*◌, ◌/◌, ◌%◌, ◌^◌, ◌<◌}
use Prim.Native.Nat.{bit_xor, differ, bit_xor-bitwise}
use mathlib.Core.Path.{◌≡◌, refl}
use native.Mathlib.Omega.{arith}
use lcdpico_34401a.Common.Digits.{op_step, op_zero, op_fields, op-lt}

-- Digits differ exactly if their sum is odd.
differ_digits : (x y : ℕ) → x < 2 → y < 2 → differ x y ≡ (x + y) % 2
differ_digits zero y p q = omega arith
differ_digits (suc zero) zero p q = refl
differ_digits (suc zero) (suc zero) p q = refl
differ_digits (suc zero) (suc (suc y)) p q = absurd (omega arith)
differ_digits (suc (suc x)) y p q = absurd (omega arith)

differ_zero : (x : ℕ) → differ x 0 ≡ x
differ_zero zero = refl
differ_zero (suc x) = refl

xor_at_zero : (b : ℕ) → b ≡ b / 2 * 2 + differ 0 (b % 2)
xor_at_zero b = omega arith

pub bit_xor_step : (a b : ℕ) → bit_xor a b ≡ bit_xor (a / 2) (b / 2) * 2 + (a + b) % 2
bit_xor_step a b = omega (
  arith,
  op_step (λ t. t) differ bit_xor bit_xor-bitwise xor_at_zero a b,
  differ_digits (a % 2) (b % 2) (omega arith) (omega arith),
)

pub bit_xor-zero : (a : ℕ) → bit_xor a 0 ≡ a
bit_xor-zero =
    op_zero (λ t. t) differ bit_xor bit_xor-bitwise xor_at_zero (λ a. a) refl
      (λ a. omega (arith, differ_zero (a % 2)))

pub xor_fields :
    (k x y r s : ℕ)
    → r < 2 ^ k
    → s < 2 ^ k
    → bit_xor (x * 2 ^ k + r) (y * 2 ^ k + s) ≡ bit_xor x y * 2 ^ k + bit_xor r s
xor_fields k x y r s = op_fields (λ t. t) differ bit_xor bit_xor-bitwise xor_at_zero k x y r s refl

pub bit_xor-lt : (k r s : ℕ) → r < 2 ^ k → s < 2 ^ k → bit_xor r s < 2 ^ k
bit_xor-lt k r s =
    op-lt (λ t. t) differ bit_xor bit_xor-bitwise xor_at_zero k r s refl
      (λ x y p q. omega (arith, differ_digits x y p q))
