-- ===== src/Command/Numbers.antt =====
-- Numbers in text: `str_to_int` of src/util.c for base 10, `get_cmd_index` of src/command_util.c,
-- and the decimal that `printf` writes.
use lcdpico_34401a.Common.{
  ℕ, zero, suc, ◌+◌, ◌-◌, ◌*◌, ◌/◌, ◌%◌, ◌<◌, ◌≤◌, ◌≡◌, refl, ap, ◌∙◌, arith, Bool, true, false,
  not, ◌||◌, ◌&&◌, List, [], ◌∷◌, ◌++◌, length, length-append, ltb, leb, ◌==◌, if◌then◌else◌,
  Option, none, some, min, from, Bool-cases, ltb→lt, inl, inr,
}
use lcdpico_34401a.Common.Int.{ℤ, pos, neg_of}
use lcdpico_34401a.Command.Interpreter.{is_space}

abbrev pub is_digit : ℕ → Bool
is_digit c = leb b'0' c && leb c b'9'

abbrev pub is_alpha : ℕ → Bool
is_alpha c = leb b'A' c && leb c b'Z' || leb b'a' c && leb c b'z'

-- The greatest `int` and `long` of the microcontroller.
abbrev pub int_max : ℕ
int_max = 2147483647

-- The digits up to the first other byte.
unfoldable pub read_digits : ℕ → List ℕ → ℕ
read_digits acc [] = acc
read_digits acc (c ∷ s) =
    let rest = read_digits (acc * 10 + (c - b'0')) s in if is_digit c then rest else acc

-- A number without a sign, if there is a digit.
unfoldable pub read_number : List ℕ → Option ℕ
read_number [] = none
read_number (c ∷ s) = if is_digit c then some (read_digits 0 (c ∷ s)) else none

-- `strtol` stops at the limits of a `long`.
unfoldable pub limit_pos : Option ℕ → Option ℤ
limit_pos none = none
limit_pos (some n) = some (pos (min n int_max))

unfoldable pub limit_neg : Option ℕ → Option ℤ
limit_neg none = none
limit_neg (some n) = some (neg_of (min n (int_max + 1)))

unfoldable pub signed : List ℕ → Option ℤ
signed [] = none
signed (c ∷ s) =
    if c == b'-'
    then limit_neg (read_number s)
    else if c == b'+'
    then limit_pos (read_number s)
    else limit_pos (read_number (c ∷ s))

-- `str_to_int`, for base 10: `none` where `strtol` reads nothing.
unfoldable pub str_to_int : List ℕ → Option ℤ
unfolding signed
str_to_int s = signed (from (λ c. not (is_space c)) s)

-- The decimal of a number, for at most `fuel + 1` digits; `n` is more than enough.
unfoldable pub decimal_fuel : ℕ → ℕ → List ℕ
decimal_fuel zero n = (b'0' + n % 10) ∷ []
decimal_fuel (suc fuel) n =
    let high = decimal_fuel fuel (n / 10) in
    if ltb n 10 then (b'0' + n) ∷ [] else high ++ ((b'0' + n % 10) ∷ [])

abbrev pub decimal : ℕ → List ℕ
decimal n = decimal_fuel n n

abbrev pub AreDigits : List ℕ → Type 0
AreDigits [] = Unit
AreDigits (c ∷ s) = (is_digit c ≡ true) × AreDigits s

AreDigits-append : (s t : List ℕ) → AreDigits s → AreDigits t → AreDigits (s ++ t)
AreDigits-append [] t h k = k
AreDigits-append (c ∷ s) t h k = (h.0, AreDigits-append s t h.1 k)

digit : (n : ℕ) → n < 10 → is_digit (b'0' + n) ≡ true
digit n h = ground arith

pub decimal-AreDigits : (fuel n : ℕ) → AreDigits (decimal_fuel fuel n)
unfolding decimal_fuel
decimal-AreDigits zero n = (digit (n % 10) (omega arith), tt)
decimal-AreDigits (suc fuel) n =
    let low : is_digit (b'0' + n % 10) ≡ true = digit (n % 10) (omega arith) in
    let all =
      AreDigits-append (decimal_fuel fuel (n / 10)) ((b'0' + n % 10) ∷ [])
        (decimal-AreDigits fuel (n / 10)) (low, tt) in
    elim (Bool-cases (ltb n 10)) [
      | inl small ↦ rw small (digit n (ltb→lt n 10 small), tt)
      | inr big ↦ rw big all
    ]

read_digits-append :
    (acc : ℕ) (s t : List ℕ)
    → AreDigits s
    → read_digits acc (s ++ t) ≡ read_digits (read_digits acc s) t
unfolding read_digits
read_digits-append acc [] t h = refl
read_digits-append acc (c ∷ s) t h = rw h.0 (read_digits-append (acc * 10 + (c - b'0')) s t h.1)

-- The decimal reads as the number.
pub read_digits-decimal : (fuel n : ℕ) → n ≤ fuel → read_digits 0 (decimal_fuel fuel n) ≡ n
unfolding read_digits decimal_fuel
read_digits-decimal zero n h = ground arith
read_digits-decimal (suc fuel) n h =
    let last : ℕ = b'0' + n % 10 in
    let high : read_digits 0 (decimal_fuel fuel (n / 10) ++ (last ∷ []))
        ≡ read_digits (n / 10) (last ∷ []) =
      read_digits-append 0 (decimal_fuel fuel (n / 10)) (last ∷ [])
        (decimal-AreDigits fuel (n / 10))
      ∙ ap (λ a. read_digits a (last ∷ [])) (read_digits-decimal fuel (n / 10) (omega arith)) in
    elim (Bool-cases (ltb n 10)) [
      | inl small ↦ rw small (ground (arith, digit n (ltb→lt n 10 small)))
      | inr big ↦ rw big (high ∙ ground (arith, digit (n % 10) (omega arith)))
    ]

pub decimal-pos : (fuel n : ℕ) → 0 < length (decimal_fuel fuel n)
unfolding decimal_fuel
decimal-pos zero n = omega arith
decimal-pos (suc fuel) n =
    ground (arith, length-append (decimal_fuel fuel (n / 10)) ((b'0' + n % 10) ∷ []))

-- A line of digits has neither blanks nor a sign in front.
str_to_int-digits :
    (s : List ℕ)
    → AreDigits s
    → 0 < length s
    → str_to_int s ≡ some (pos (min (read_digits 0 s) int_max))
unfolding str_to_int signed read_number limit_pos
str_to_int-digits [] h l = absurd (omega arith)
str_to_int-digits (c ∷ s) h l =
    let digit_c : (48 ≤ c) × (c ≤ 57) = ground (arith, h.0) in
    let solid : is_space c ≡ false = ground arith in
    let plain : (c == b'-') ≡ false = ground arith in
    let unsigned : (c == b'+') ≡ false = ground arith in rw solid (rw (plain, unsigned, h.0) refl)

-- What `printf` writes, `str_to_int` reads, up to the greatest `long`.
pub str_to_int-decimal : (n : ℕ) → n ≤ int_max → str_to_int (decimal n) ≡ some (pos n)
str_to_int-decimal n h =
    let least : min (read_digits 0 (decimal n)) int_max ≡ n =
      omega (arith, read_digits-decimal n n (omega arith)) in
    str_to_int-digits (decimal n) (decimal-AreDigits n n) (decimal-pos n n)
    ∙ ap (λ m. some (pos m)) least
