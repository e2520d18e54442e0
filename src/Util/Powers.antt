-- ===== src/Util/Powers.antt =====
-- `pow_i64` of src/util.c, which squares for each bit of the exponent.
use mathlib.Core.Path.{subst}
use native.Mathlib.Nat.{
  le_trans, pow-zero, pow-suc, pow-succ', one-le-pow, one-le-mul, mul_assoc, mul_comm, mul-le-mul,
  le-mul_of_pos_right,
}
use lcdpico_34401a.Common.{
  ℕ, zero, suc, ◌+◌, ◌*◌, ◌/◌, ◌%◌, ◌^◌, ◌<◌, ◌≤◌, ◌≡◌, sym, ap, ◌∙◌, arith, false, ◌||◌,
  Bool-cases, inl, inr, ltb, ◌==◌, if◌then◌else◌,
}

abbrev pub sqrt_int64_max : ℕ
sqrt_int64_max = 3037000499

-- A product of numbers that are not negative, as far as an int64_t keeps its bits.
abbrev mul64 : ℕ → ℕ → ℕ
mul64 a b = a * b % 18446744073709551616

-- The loop of `pow_i64`, on fuel: `y` has eight bits.
unfoldable pub square_loop : ℕ → ℕ → ℕ → ℕ → ℕ
square_loop zero x y res = res
square_loop (suc fuel) x y res =
    let squared : ℕ = mul64 x x in
    let rest : ℕ =
      square_loop fuel squared (y / 2) (if y % 2 == 1 then mul64 res squared else res) in
    if y == 0 then res else if ltb sqrt_int64_max x then 0 else rest

-- `pow_i64` for a base that is not negative.
unfoldable pub pow_i64 : ℕ → ℕ → ℕ
unfolding square_loop
pow_i64 x y =
    if x == 1 || y == 0
    then 1
    else if x == 0
    then 0
    else square_loop 8 x (y / 2) (if y % 2 == 1 then x else 1)

-- A power with an even exponent, and with an odd one.
pow_even : (x q : ℕ) → x ^ (q + q) ≡ (x * x) ^ q
pow_even x zero = pow-zero x ∙ sym (pow-zero (x * x))
pow_even x (suc q) =
    let e : suc q + suc q ≡ suc (suc (q + q)) = omega arith in
    ap (λ n. x ^ n) e
    ∙ (pow-suc x (suc (q + q))
        ∙ (ap (λ n. n * x) (pow-suc x (q + q))
            ∙ (mul_assoc (x ^ (q + q)) x x
                ∙ (ap (λ n. n * (x * x)) (pow_even x q) ∙ sym (pow-suc (x * x) q)))))

pow_odd : (x q : ℕ) → x ^ suc (q + q) ≡ x * (x * x) ^ q
pow_odd x q = pow-succ' x (q + q) ∙ ap (λ n. x * n) (pow_even x q)

-- A factor of a product is no greater than the product.
factor_le : (a b : ℕ) → 1 ≤ a → b ≤ a * b
factor_le a b h = subst (λ n. b ≤ n) (mul_comm b a) (le-mul_of_pos_right {m = a} b h)

-- The base of a power that is not the zeroth is no greater than it.
base_le : (x y : ℕ) → 1 ≤ x → 1 ≤ y → x ≤ x ^ y
base_le x (suc y) h k =
    subst (λ n. x ≤ n) (sym (pow-suc x y)) (factor_le (x ^ y) x (one-le-pow y x h))
base_le x zero h k = absurd (omega arith)

below_sqrt : (x : ℕ) → x * x < 9223372036854775808 → ltb sqrt_int64_max x ≡ false
below_sqrt x h = elim (Bool-cases (ltb sqrt_int64_max x)) [
  | inr e ↦ e
  | inl e ↦
      let big : 3037000500 ≤ x = ground arith in
      let more : 3037000500 * 3037000500 ≤ x * x = mul-le-mul big big in absurd (omega arith)
]

square_loop-pow :
    (fuel x y res : ℕ)
    → y < 2 ^ fuel
    → 1 ≤ x
    → 1 ≤ res
    → res * (x * x) ^ y < 9223372036854775808
    → square_loop fuel x y res ≡ res * (x * x) ^ y
unfolding square_loop
square_loop-pow zero x zero res h hx hr fits = rw (pow-zero (x * x)) (omega arith)
square_loop-pow zero x (suc y) res h hx hr fits = absurd (omega arith)
square_loop-pow (suc fuel) x zero res h hx hr fits = rw (pow-zero (x * x)) (omega arith)
square_loop-pow (suc fuel) x (suc y) res h hx hr fits =
    let sq : ℕ = x * x in
    let q : ℕ = suc y / 2 in
    let sq_pos : 1 ≤ sq = one-le-mul hx hx in
    let sq_le : sq ≤ res * sq ^ suc y =
      le_trans (base_le sq (suc y) sq_pos (omega arith)) (factor_le res (sq ^ suc y) hr) in
    let small : sq < 9223372036854775808 = omega arith in
    let kept : mul64 x x ≡ sq = omega arith in
    let room : q < 2 ^ fuel = omega (arith, pow-suc 2 fuel) in
    let more : (suc y == 0) ≡ false = ground arith in
    rw (more, below_sqrt x small, kept)
      (elim (Bool-cases (suc y % 2 == 1)) [
        | inr e ↦
            let even : suc y ≡ q + q = ground arith in
            let power : sq ^ suc y ≡ (sq * sq) ^ q = ap (λ n. sq ^ n) even ∙ pow_even sq q in
            rw (e, power) (square_loop-pow fuel sq q res room sq_pos hr (rw power at fits))
        | inl e ↦
            let odd : suc y ≡ suc (q + q) = ground arith in
            let power : res * sq ^ suc y ≡ res * sq * (sq * sq) ^ q =
              ap (λ n. res * sq ^ n) odd
              ∙ (ap (λ n. res * n) (pow_odd sq q) ∙ sym (mul_assoc res sq ((sq * sq) ^ q))) in
            let fits' : res * sq * (sq * sq) ^ q < 9223372036854775808 = rw power at fits in
            let part : res * sq ≤ res * sq * (sq * sq) ^ q =
              le-mul_of_pos_right {m = (sq * sq) ^ q} (res * sq)
                (one-le-pow q (sq * sq) (one-le-mul sq_pos sq_pos)) in
            let kept' : mul64 res sq ≡ res * sq = omega arith in
            rw (e, kept', power)
              (square_loop-pow fuel sq q (res * sq) room sq_pos (one-le-mul hr sq_pos) fits')
      ])

one_pow : (n : ℕ) → 1 ^ n ≡ 1
one_pow zero = pow-zero 1
one_pow (suc n) = omega (arith, pow-suc 1 n, one_pow n)

pow_i64-large :
    (x y : ℕ) → 2 ≤ x → 1 ≤ y → y < 256 → x ^ y < 9223372036854775808 → pow_i64 x y ≡ x ^ y
unfolding pow_i64
pow_i64-large x y hx hy h fits =
    let q : ℕ = y / 2 in
    let not_one : (x == 1) ≡ false = ground arith in
    let not_zero : (x == 0) ≡ false = ground arith in
    let more : (y == 0) ≡ false = ground arith in
    let room : q < 2 ^ 8 = omega arith in
    let pos : 1 ≤ x = omega arith in
    rw (not_one, more, not_zero)
      (elim (Bool-cases (y % 2 == 1)) [
        | inr e ↦
            let even : y ≡ q + q = ground arith in
            let power : x ^ y ≡ 1 * (x * x) ^ q =
              ap (λ n. x ^ n) even ∙ (pow_even x q ∙ omega arith) in
            rw (e, power) (square_loop-pow 8 x q 1 room pos (omega arith) (rw power at fits))
        | inl e ↦
            let odd : y ≡ suc (q + q) = ground arith in
            let power : x ^ y ≡ x * (x * x) ^ q = ap (λ n. x ^ n) odd ∙ pow_odd x q in
            rw (e, power) (square_loop-pow 8 x q x room pos pos (rw power at fits))
      ])

-- A power of a base that is not negative, with an exponent of eight bits, that fits in an int64_t is
-- the result of `pow_i64`: its check for overflow stops none of them.
pub pow_i64-pow : (x y : ℕ) → y < 256 → x ^ y < 9223372036854775808 → pow_i64 x y ≡ x ^ y
unfolding pow_i64
pow_i64-pow x zero h fits = elim (Bool-cases (x == 1)) [
  | inl e ↦ rw e (sym (pow-zero x))
  | inr e ↦ rw e (sym (pow-zero x))
]
pow_i64-pow zero (suc y) h fits =
    let more : (suc y == 0) ≡ false = ground arith in rw more (omega (arith, pow-suc 0 y))
pow_i64-pow (suc zero) (suc y) h fits = sym (one_pow (suc y))
pow_i64-pow (suc (suc x)) (suc y) h fits =
    pow_i64-large (suc (suc x)) (suc y) (omega arith) (omega arith) h fits
