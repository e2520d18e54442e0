-- ===== src/Decoder/Sampling/Bits.antt =====
-- The bits of a byte, shifted in one after the other into eight bits.
use lcdpico_34401a.Common.{
  ℕ, suc, ◌+◌, ◌*◌, ◌^◌, ◌%◌, ◌<◌, ◌≤◌, ◌≡◌, ap, ◌∙◌, arith, Bool, true, false, List, [], ◌∷◌,
  length, if◌then◌else◌, bit_or, bit_or_step, bit_or-zero, ◌/◌, u8,
}
use native.Mathlib.Nat.{pow-suc, mul-le-mul_right}

unfoldable pub bit : Bool → ℕ
bit b = if b then 1 else 0

-- Most significant bit first.
unfoldable pub fold_bits : ℕ → List Bool → ℕ
fold_bits acc [] = acc
fold_bits acc (b ∷ bs) = fold_bits (u8 (bit_or (acc * 2) (bit b))) bs

unfoldable pub byte_of : ℕ → List Bool → ℕ
byte_of acc [] = acc
byte_of acc (b ∷ bs) = byte_of (2 * acc + (if b then 1 else 0)) bs

bit_or-bit :
    (acc : ℕ) (b : Bool) → bit_or (acc * 2) (if b then 1 else 0) ≡ 2 * acc + (if b then 1 else 0)
bit_or-bit acc true =
    omega (arith, bit_or_step (acc * 2) 1, bit_or-zero acc, ap (λ t. bit_or t 0) half)
  where
    half : acc * 2 / 2 ≡ acc
    half = omega arith
bit_or-bit acc false = omega (arith, bit_or-zero (acc * 2))

bit-le : (b : Bool) → (if b then 1 else 0) ≤ 1
bit-le true = omega arith
bit-le false = omega arith

byte_of-eq : (acc : ℕ) (bs : List Bool) → byte_of acc bs ≡ acc * 2 ^ length bs + byte_of 0 bs
unfolding byte_of
byte_of-eq acc [] = omega arith
byte_of-eq acc (b ∷ bs) =
    let low : ℕ = if b then 1 else 0 in
    let double : 2 ^ suc (length bs) ≡ 2 ^ length bs * 2 = pow-suc 2 (length bs) in
    omega
      (arith, byte_of-eq (2 * acc + low) bs, byte_of-eq (2 * 0 + low) bs, ap (λ t. acc * t) double)

byte_of-lt : (bs : List Bool) → byte_of 0 bs < 2 ^ length bs
unfolding byte_of
byte_of-lt [] = omega arith
byte_of-lt (b ∷ bs) =
    let low : ℕ = if b then 1 else 0 in
    let within : low * 2 ^ length bs ≤ 1 * 2 ^ length bs =
      mul-le-mul_right (2 ^ length bs) (bit-le b) in
    omega (arith, byte_of-eq (2 * 0 + low) bs, byte_of-lt bs, pow-suc 2 (length bs), within)

mod_inside : (x y v : ℕ) → (x % 256 * y + v) % 256 ≡ (x * y + v) % 256
mod_inside x y v = omega (arith, ap (λ t. t * y) split)
  where
    split : x ≡ 256 * (x / 256) + x % 256
    split = omega arith

fold_bits-eq :
    (acc : ℕ) (bs : List Bool)
    → acc < 256
    → fold_bits acc bs ≡ (acc * 2 ^ length bs + byte_of 0 bs) % 256
unfolding fold_bits bit
fold_bits-eq acc [] h = unfold byte_of in omega arith
fold_bits-eq acc (b ∷ bs) h =
    let low : ℕ = if b then 1 else 0 in
    let next : ℕ = 2 * acc + low in
    let first : u8 (bit_or (acc * 2) low) ≡ next % 256 = ap u8 (bit_or-bit acc b) in
    let regroup : next * 2 ^ length bs + byte_of 0 bs
        ≡ acc * 2 ^ suc (length bs) + byte_of (2 * 0 + low) bs =
      omega (arith, ap (λ t. acc * t) (pow-suc 2 (length bs)), byte_of-eq (2 * 0 + low) bs) in
    rw first (
      fold_bits-eq (next % 256) bs (omega arith)
      ∙ (mod_inside next (2 ^ length bs) (byte_of 0 bs)
          ∙ (unfold byte_of in ap (λ t. t % 256) regroup)))

-- Eight bits push out whatever the accumulator held.
pub fold_bits-byte_of :
    (acc : ℕ) (bs : List Bool) → acc < 256 → length bs ≡ 8 → fold_bits acc bs ≡ byte_of 0 bs
fold_bits-byte_of acc bs h n =
    let width : 2 ^ length bs ≡ 256 = ap (λ k. 2 ^ k) n in
    let weight : acc * 2 ^ length bs ≡ acc * 256 = ap (λ t. acc * t) width in
    omega (arith, fold_bits-eq acc bs h, byte_of-lt bs)
