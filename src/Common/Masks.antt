-- ===== src/Common/Masks.antt =====
-- Laws of `&` and `|` at variables: low masks, fields, one bit of a word.
use Prim.Native.Nat.{ℕ, zero, suc, ◌+◌, ◌-◌, ◌*◌, ◌/◌, ◌%◌, ◌^◌, ◌≤◌, ◌<◌, min, max}
use Prim.Native.Nat.{bit_and, bit_or, bit_and-bitwise, bit_or-bitwise}
use mathlib.Core.Path.{◌≡◌, refl, ap, ap₂, ◌∙◌}
use native.Mathlib.Nat.{pow-suc, one-le-pow}
use native.Mathlib.Decide.{ℕ_discrete}
use native.Mathlib.Omega.{arith}
use lcdpico_34401a.Common.Digits.{op_step, op_zero, op_fields, op-lt}

and_at_zero : (b : ℕ) → 0 ≡ 0 * 2 + min 0 (b % 2)
and_at_zero b = omega arith

or_at_zero : (b : ℕ) → b ≡ b / 2 * 2 + max 0 (b % 2)
or_at_zero b = omega arith

pub zero-bit_or : (b : ℕ) → bit_or 0 b ≡ b
zero-bit_or b = bit_or-bitwise 0 b

pub bit_and_step : (a b : ℕ) → bit_and a b ≡ bit_and (a / 2) (b / 2) * 2 + min (a % 2) (b % 2)
bit_and_step = op_step (λ b. 0) min bit_and bit_and-bitwise and_at_zero

pub bit_or_step : (a b : ℕ) → bit_or a b ≡ bit_or (a / 2) (b / 2) * 2 + max (a % 2) (b % 2)
bit_or_step = op_step (λ b. b) max bit_or bit_or-bitwise or_at_zero

pub and_fields :
    (k x y r s : ℕ)
    → r < 2 ^ k
    → s < 2 ^ k
    → bit_and (x * 2 ^ k + r) (y * 2 ^ k + s) ≡ bit_and x y * 2 ^ k + bit_and r s
and_fields k x y r s = op_fields (λ b. 0) min bit_and bit_and-bitwise and_at_zero k x y r s refl

pub or_fields :
    (k x y r s : ℕ)
    → r < 2 ^ k
    → s < 2 ^ k
    → bit_or (x * 2 ^ k + r) (y * 2 ^ k + s) ≡ bit_or x y * 2 ^ k + bit_or r s
or_fields k x y r s = op_fields (λ b. b) max bit_or bit_or-bitwise or_at_zero k x y r s refl

pub bit_and-zero : (a : ℕ) → bit_and a 0 ≡ 0
bit_and-zero =
    op_zero (λ b. 0) min bit_and bit_and-bitwise and_at_zero (λ a. 0) refl (λ a. omega arith)

pub bit_or-zero : (a : ℕ) → bit_or a 0 ≡ a
bit_or-zero = op_zero (λ b. b) max bit_or bit_or-bitwise or_at_zero (λ a. a) refl (λ a. omega arith)

pub and_ones : (k r : ℕ) → r < 2 ^ k → bit_and r (2 ^ k - 1) ≡ r
and_ones zero zero h = refl
and_ones zero (suc r) h = absurd (omega arith)
and_ones (suc k) r h =
    let double : 2 ^ suc k ≡ 2 * 2 ^ k = omega (arith, pow-suc 2 k) in
    let some_bits : 1 ≤ 2 ^ k = one-le-pow k 2 (omega arith) in
    let half : (2 ^ suc k - 1) / 2 ≡ 2 ^ k - 1 = omega arith in
    omega (
      arith,
      bit_and_step r (2 ^ suc k - 1),
      ap (λ t. bit_and (r / 2) t) half,
      and_ones k (r / 2) (omega arith),
    )

-- A mask of `k` ones takes the `k` low bits.
pub and_low : (k q r : ℕ) → r < 2 ^ k → bit_and (q * 2 ^ k + r) (2 ^ k - 1) ≡ r
and_low k q r h =
    let some_bits : 1 ≤ 2 ^ k = one-le-pow k 2 (omega arith) in
    let no_field : 0 * 2 ^ k + (2 ^ k - 1) ≡ 2 ^ k - 1 = omega arith in
    omega (
      arith,
      and_fields k q 0 r (2 ^ k - 1) h (omega arith),
      and_ones k r h,
      ap (λ t. t * 2 ^ k) (bit_and-zero q),
      ap (λ t. bit_and (q * 2 ^ k + r) t) no_field,
    )

pub and_byte : (a : ℕ) → bit_and a 255 ≡ a % 256
and_byte a =
    omega (arith, and_low 8 (a / 256) (a % 256) (omega arith), ap (λ t. bit_and t 255) split)
  where
    split : a ≡ a / 256 * 256 + a % 256
    split = omega arith

pub bit_or-lt : (k r s : ℕ) → r < 2 ^ k → s < 2 ^ k → bit_or r s < 2 ^ k
bit_or-lt k r s =
    op-lt (λ b. b) max bit_or bit_or-bitwise or_at_zero k r s refl (λ x y p q. omega arith)

bit_and-none : (a b : ℕ) → a ≡ 0 → bit_and a b ≡ 0
bit_and-none a b none = ap (λ t. bit_and t b) none ∙ bit_and-bitwise 0 b

and_le_below : (n a b : ℕ) → a ≤ n → bit_and a b ≤ b
and_le_below zero a b p = omega (arith, bit_and-none a b (omega arith))
and_le_below (suc n) a b p = elim (ℕ_discrete a 0) [
  | yes none ↦ omega (arith, bit_and-none a b none)
  | no some_bits ↦ omega (arith, bit_and_step a b, and_le_below n (a / 2) (b / 2) (omega arith))
]

pub bit_and-le : (a b : ℕ) → bit_and a b ≤ b
bit_and-le a b = and_le_below a a b (omega arith)

-- Two fields that do not overlap are put side by side.
pub or_high : (k x s : ℕ) → s < 2 ^ k → bit_or (x * 2 ^ k) s ≡ x * 2 ^ k + s
or_high k x s h =
    let some_bits : 1 ≤ 2 ^ k = one-le-pow k 2 (omega arith) in
    let low : x * 2 ^ k ≡ x * 2 ^ k + 0 = omega arith in
    let high : s ≡ 0 * 2 ^ k + s = omega arith in
    ap₂ bit_or low high
    ∙ omega (
      arith,
      or_fields k x 0 0 s (omega arith) h,
      ap (λ t. t * 2 ^ k) (bit_or-zero x),
      zero-bit_or s,
    )
