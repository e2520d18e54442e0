-- ===== src/Common/Digits.antt =====
-- An operation on binary digits, one digit at a time and field by field. The laws of `&`, `|` and
-- `^` are instances.
use Prim.Native.Nat.{ℕ, zero, suc, ◌+◌, ◌*◌, ◌/◌, ◌%◌, ◌^◌, ◌≤◌, ◌<◌, digits, bitwise}
use mathlib.Core.Path.{◌≡◌, refl, sym, ap, ap₂, ◌∙◌}
use mathlib.Core.Logic.{◌⊎◌, inl, inr}
use native.Mathlib.Nat.{pow-suc}
use native.Mathlib.Omega.{arith}

at_most : (n x : ℕ) → x ≤ suc n → (x ≤ n) ⊎ (x ≡ suc n)
at_most n x h = grind arith

module _ (z : ℕ → ℕ) (f : ℕ → ℕ → ℕ) where
  -- One digit more than enough changes nothing.
  one_more : (n x y : ℕ) → x ≤ n → digits z f (suc n) x y ≡ digits z f n x y
  one_more zero zero y h = refl
  one_more zero (suc x) y h = absurd (omega arith)
  one_more (suc n) zero y h = refl
  one_more (suc n) (suc x) y h =
      ap (λ t. t * 2 + f (suc x % 2) (y % 2)) (one_more n (suc x / 2) (y / 2) (omega arith))

  pub settle : (n x y : ℕ) → x ≤ n → digits z f n x y ≡ digits z f x x y
  settle zero zero y h = refl
  settle zero (suc x) y h = absurd (omega arith)
  settle (suc n) x y h = elim (at_most n x h) [
    | inl small ↦ one_more n x y small ∙ settle n x y small
    | inr same ↦ ap (λ k. digits z f k x y) (sym same)
  ]

module _ (z : ℕ → ℕ) (f : ℕ → ℕ → ℕ) (op : ℕ → ℕ → ℕ) (means : (a b : ℕ) → op a b ≡ bitwise z f a b)
    (at_zero : (b : ℕ) → z b ≡ z (b / 2) * 2 + f 0 (b % 2)) where
  -- The lowest digit, and the others.
  pub op_step : (a b : ℕ) → op a b ≡ op (a / 2) (b / 2) * 2 + f (a % 2) (b % 2)
  op_step zero b = means 0 b ∙ (at_zero b ∙ ap (λ t. t * 2 + f 0 (b % 2)) (sym (means 0 (b / 2))))
  op_step (suc a) b =
      means (suc a) b
      ∙ ap (λ t. t * 2 + f (suc a % 2) (b % 2))
          (settle z f a (suc a / 2) (b / 2) (omega arith) ∙ sym (means (suc a / 2) (b / 2)))

  -- What the operation does with a zero behind it, told digit by digit.
  op_zero_below :
      (g : ℕ → ℕ)
      → op 0 0 ≡ g 0
      → ((a : ℕ) → g a ≡ g (a / 2) * 2 + f (a % 2) 0)
      → (n a : ℕ) → a ≤ n
      → op a 0 ≡ g a
  op_zero_below g h0 h n zero p = h0
  op_zero_below g h0 h zero (suc a) p = absurd (omega arith)
  op_zero_below g h0 h (suc n) (suc a) p =
      op_step (suc a) 0
      ∙ (ap (λ t. t * 2 + f (suc a % 2) 0) (op_zero_below g h0 h n (suc a / 2) (omega arith))
          ∙ sym (h (suc a)))

  pub op_zero :
      (g : ℕ → ℕ)
      → op 0 0 ≡ g 0
      → ((a : ℕ) → g a ≡ g (a / 2) * 2 + f (a % 2) 0)
      → (a : ℕ) → op a 0 ≡ g a
  op_zero g h0 h a = op_zero_below g h0 h a a (omega arith)

  -- Words of a high part and `k` low bits: the operation acts on each part.
  pub op_fields :
      (k x y r s : ℕ)
      → op 0 0 ≡ 0
      → r < 2 ^ k
      → s < 2 ^ k
      → op (x * 2 ^ k + r) (y * 2 ^ k + s) ≡ op x y * 2 ^ k + op r s
  op_fields zero x y zero zero h0 p q =
      let left : x * 1 + 0 ≡ x = omega arith in
      let right : y * 1 + 0 ≡ y = omega arith in omega (arith, h0, ap₂ op left right)
  op_fields zero x y (suc r) s h0 p q = absurd (omega arith)
  op_fields zero x y zero (suc s) h0 p q = absurd (omega arith)
  op_fields (suc k) x y r s h0 p q =
      let double : 2 ^ suc k ≡ 2 * 2 ^ k = omega (arith, pow-suc 2 k) in
      let a = x * 2 ^ suc k + r in
      let b = y * 2 ^ suc k + s in
      let a_half : a / 2 ≡ x * 2 ^ k + r / 2 = omega (arith, ap (λ t. x * t) double) in
      let b_half : b / 2 ≡ y * 2 ^ k + s / 2 = omega (arith, ap (λ t. y * t) double) in
      let a_low : a % 2 ≡ r % 2 = omega (arith, ap (λ t. x * t) double) in
      let b_low : b % 2 ≡ s % 2 = omega (arith, ap (λ t. y * t) double) in
      omega (
        arith,
        op_step a b,
        op_step r s,
        ap₂ op a_half b_half,
        ap₂ f a_low b_low,
        ap (λ t. op x y * t) double,
        op_fields k x y (r / 2) (s / 2) h0 (omega arith) (omega arith),
      )

  -- Words of `k` bits give a word of `k` bits, if digits give a digit.
  pub op-lt :
      (k r s : ℕ)
      → op 0 0 ≡ 0
      → ((x y : ℕ) → x < 2 → y < 2 → f x y < 2)
      → r < 2 ^ k
      → s < 2 ^ k
      → op r s < 2 ^ k
  op-lt zero zero zero h0 digit p q = omega (arith, h0)
  op-lt zero zero (suc s) h0 digit p q = absurd (omega arith)
  op-lt zero (suc r) s h0 digit p q = absurd (omega arith)
  op-lt (suc k) r s h0 digit p q =
      let double : 2 ^ suc k ≡ 2 * 2 ^ k = omega (arith, pow-suc 2 k) in
      omega (
        arith,
        op_step r s,
        digit (r % 2) (s % 2) (omega arith) (omega arith),
        op-lt k (r / 2) (s / 2) h0 digit (omega arith) (omega arith),
      )
