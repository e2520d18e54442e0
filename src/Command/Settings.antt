-- ===== src/Command/Settings.antt =====
-- The setting helpers of src/command_util.c for integers and switches. Each prints the variable
-- for a query, and else checks the argument and stores it.
use lcdpico_34401a.Common.{
  ℕ, ◌+◌, ◌-◌, ◌*◌, ◌%◌, ◌<◌, ◌≤◌, ◌≡◌, refl, arith, Bool, true, false, ◌||◌, ◌&&◌, List, [], ◌∷◌,
  ◌++◌, get_or, leb, ◌==◌, if◌then◌else◌, Option, none, some, strncase_eq,
}
use native.Mathlib.Nat.{mod-eq_of_lt, add-mul-mod_self_right}
use lcdpico_34401a.Common.Int.{ℤ, pos, negsuc}
use lcdpico_34401a.Command.Numbers.{int_max, str_to_int, decimal, str_to_int-decimal}

-- What a helper returns, what it prints and the variable it leaves.
pub record Reply (A : Type 0) : Type 0 where
  pub result : ℕ
  pub printed : List ℕ
  pub var : A

-- The cast of an `int` to an unsigned type of `width` values.
unfoldable pub narrow : ℕ → ℤ → ℕ
narrow width (pos n) = n % width
narrow width (negsuc n) = width - 1 - n % width

-- What is done with a number that is read. It is cast first, and then compared with the limits.
unfoldable pub store_uint : ℕ → ℕ → ℕ → ℕ → Option ℤ → Reply ℕ
unfolding narrow
store_uint width min_val max_val var none = record { result = 1; printed = []; var = var }
store_uint width min_val max_val var (some v) =
    let val : ℕ = narrow width v in
    if leb min_val val && leb val max_val
    then record { result = 0; printed = []; var = val }
    else record { result = 2; printed = []; var = var }

unfoldable pub uint_setting : ℕ → List ℕ → Bool → ℕ → ℕ → ℕ → Reply ℕ
unfolding store_uint
uint_setting width args query var min_val max_val =
    if query
    then record { result = 0; printed = decimal var ++ (10 ∷ []); var = var }
    else store_uint width min_val max_val var (str_to_int args)

-- `uint8_setting`, `uint16_setting` and `uint32_setting`
abbrev pub uint8_setting : List ℕ → Bool → ℕ → ℕ → ℕ → Reply ℕ
uint8_setting = uint_setting 256

abbrev pub uint16_setting : List ℕ → Bool → ℕ → ℕ → ℕ → Reply ℕ
uint16_setting = uint_setting 65536

abbrev pub uint32_setting : List ℕ → Bool → ℕ → ℕ → ℕ → Reply ℕ
uint32_setting = uint_setting 4294967296

-- The words that `bool_setting` reads and prints.
abbrev true_word : List ℕ
true_word = b't' ∷ b'r' ∷ b'u' ∷ b'e' ∷ []

abbrev false_word : List ℕ
false_word = b'f' ∷ b'a' ∷ b'l' ∷ b's' ∷ b'e' ∷ []

abbrev pub on_word : List ℕ
on_word = b'O' ∷ b'N' ∷ []

abbrev pub off_word : List ℕ
off_word = b'O' ∷ b'F' ∷ b'F' ∷ []

-- `args[0] == d && args[1] == 0`
abbrev is_byte : ℕ → List ℕ → Bool
is_byte d args = get_or args 0 0 == d && get_or args 1 0 == 0

unfoldable pub read_switch : List ℕ → Option Bool
read_switch args =
    if is_byte b'1' args || strncase_eq 5 args true_word || strncase_eq 3 args on_word
    then some true
    else if is_byte b'0' args || strncase_eq 6 args false_word || strncase_eq 4 args off_word
    then some false
    else none

unfoldable pub store_bool : Bool → Option Bool → Reply Bool
store_bool var none = record { result = 2; printed = []; var = var }
store_bool var (some val) = record { result = 0; printed = []; var = val }

unfoldable pub bool_setting : List ℕ → Bool → Bool → Reply Bool
unfolding read_switch store_bool
bool_setting args query var =
    if query
    then record {
      result = 0;
      printed = (if var then on_word else off_word) ++ (10 ∷ []);
      var = var;
    }
    else store_bool var (read_switch args)

-- A number within the limits, of the type and of `int`, written in decimal, is stored, and a query
-- then prints it; so the setting can be read back and set again.
pub uint_setting-decimal :
    (width n var min_val max_val : ℕ)
    → n < width
    → n ≤ int_max
    → min_val ≤ n
    → n ≤ max_val
    → let set = uint_setting width (decimal n) false var min_val max_val in
      (set.result ≡ 0)
      × (set.var ≡ n)
      × ((uint_setting width [] true set.var min_val max_val).printed ≡ decimal n ++ (10 ∷ []))
unfolding uint_setting store_uint narrow
uint_setting-decimal width n var min_val max_val h hi lo up =
    let low : n % width ≡ n = mod-eq_of_lt h in rw (str_to_int-decimal n hi) (ground (arith, low))

store_uint-InRange :
    (width min_val max_val var : ℕ) (o : Option ℤ)
    → min_val ≤ var
    → var ≤ max_val
    → let r = store_uint width min_val max_val var o in (min_val ≤ r.var) × (r.var ≤ max_val)
unfolding store_uint
store_uint-InRange width min_val max_val var none lo up = (lo, up)
store_uint-InRange width min_val max_val var (some v) lo up = ground arith

-- Whatever the arguments and whether it is a query or not, a variable that lies within the limits
-- stays within them.
pub uint_setting-InRange :
    (width : ℕ) (args : List ℕ) (query : Bool) (var min_val max_val : ℕ)
    → min_val ≤ var
    → var ≤ max_val
    → let r = uint_setting width args query var min_val max_val in
      (min_val ≤ r.var) × (r.var ≤ max_val)
unfolding uint_setting
uint_setting-InRange width args true var min_val max_val lo up = (lo, up)
uint_setting-InRange width args false var min_val max_val lo up =
    store_uint-InRange width min_val max_val var (str_to_int args) lo up

-- The cast comes before the comparison: a number that is too large for the type is taken for
-- the one that is left of it, with the same reply.
pub uint_setting-narrow :
    (width n k var min_val max_val : ℕ)
    → n < width
    → n + k * width ≤ int_max
    → uint_setting width (decimal (n + k * width)) false var min_val max_val
      ≡ uint_setting width (decimal n) false var min_val max_val
unfolding uint_setting store_uint narrow
uint_setting-narrow width n k var min_val max_val h hi =
    let same : (n + k * width) % width ≡ n % width = add-mul-mod_self_right n k width in
    let less : n ≤ int_max = omega arith in
    rw (str_to_int-decimal (n + k * width) hi, str_to_int-decimal n less) (rw same refl)
