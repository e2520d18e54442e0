-- ===== src/Command/Indices.antt =====
-- Numbers at the end of subcommands, and the settings of the elements of an array that they select.
use lcdpico_34401a.Common.{
  ℕ, zero, suc, ◌-◌, ◌<◌, ◌≤◌, ◌≡◌, refl, arith, Bool, true, false, ◌||◌, ◌&&◌, List, [], ◌∷◌, ◌++◌,
  length, length-append, length-set, get_or, set, get_or-set_self, get_or-set_ne, ltb, leb, lt→ltb,
  ◌==◌, if◌then◌else◌, Option, none, some,
}
use lcdpico_34401a.Common.Int.{ℤ, pos, negsuc}
use lcdpico_34401a.Command.Tree.{PrevCmd}
use lcdpico_34401a.Command.Interpreter.{is_blank}
use lcdpico_34401a.Command.Numbers.{
  int_max, is_alpha, str_to_int, AreDigits, decimal, decimal-AreDigits, decimal-pos,
  str_to_int-decimal,
}
use lcdpico_34401a.Command.Settings.{Reply}

-- The loop of `get_cmd_index`: letters and blanks are skipped, but not the last byte.
unfoldable pub skip_letters : List ℕ → List ℕ
skip_letters [] = []
skip_letters (c ∷ s) =
    let rest = skip_letters s in
    if ltb 0 (length s) && (is_alpha c || is_blank c) then rest else c ∷ s

abbrev or_error : Option ℤ → ℤ
or_error none = negsuc 2
or_error (some v) = v

-- `get_cmd_index`, for a string that is not null.
unfoldable pub get_cmd_index : List ℕ → ℤ
unfolding skip_letters
get_cmd_index cmd =
    if ltb (length cmd) 1 || leb 256 (length cmd)
    then negsuc 1
    else or_error (str_to_int (skip_letters cmd))

-- `get_prev_cmd_index`, for a stack that is not null.
unfoldable pub get_prev_cmd_index : PrevCmd → ℕ → ℤ
unfolding get_cmd_index
get_prev_cmd_index st depth =
    if leb st.depth depth
    then negsuc 1
    else get_cmd_index (get_or st.cmds (st.depth - depth - 1) [])

-- The element of an array that a subcommand's number selects: 1 is the first.
unfoldable pub selected : ℤ → ℕ → Option ℕ
selected (pos zero) array_size = none
selected (pos (suc i)) array_size = if ltb i array_size then some i else none
selected (negsuc n) array_size = none

-- What is done with a number that is read for the element `i`. It is compared as an `int`.
unfoldable pub store_element : ℕ → ℕ → List ℕ → ℕ → Option ℤ → Reply (List ℕ)
store_element min_val max_val array i none = record { result = 1; printed = []; var = array }
store_element min_val max_val array i (some (negsuc n)) = record {
  result = 2;
  printed = [];
  var = array;
}
store_element min_val max_val array i (some (pos val)) =
    if ltb val min_val || ltb max_val val
    then record { result = 2; printed = []; var = array }
    else record { result = 0; printed = []; var = set array i val }

unfoldable pub array_reply : List ℕ → Bool → List ℕ → ℕ → ℕ → Option ℕ → Reply (List ℕ)
unfolding store_element
array_reply args query array min_val max_val none = record { result = 1; printed = []; var = array }
array_reply args query array min_val max_val (some i) =
    if query
    then record { result = 1; printed = decimal (get_or array i 0) ++ (10 ∷ []); var = array }
    else store_element min_val max_val array i (str_to_int args)

-- `array_uint8_setting` and `array_uint16_setting`: the array is the list of the variables that
-- `element_size` and `var_offset` address. A query prints, and still returns 1.
unfoldable pub array_uint_setting : List ℕ → Bool → PrevCmd → ℕ → List ℕ → ℕ → ℕ → Reply (List ℕ)
unfolding array_reply
array_uint_setting args query prev_cmd cmd_offset array min_val max_val =
    array_reply args query array min_val max_val
      (selected (get_prev_cmd_index prev_cmd cmd_offset) (length array))

-- Letters only.
abbrev pub AreLetters : List ℕ → Type 0
AreLetters [] = Unit
AreLetters (c ∷ s) = (is_alpha c ≡ true) × AreLetters s

skip_letters-name :
    (name digits : List ℕ)
    → AreLetters name
    → AreDigits digits
    → 0 < length digits
    → skip_letters (name ++ digits) ≡ digits
unfolding skip_letters
skip_letters-name [] [] h k l = absurd (omega arith)
skip_letters-name [] (d ∷ digits) h k l =
    let digit : (48 ≤ d) × (d ≤ 57) = ground (arith, k.0) in ground arith
skip_letters-name (c ∷ name) digits h k l =
    let rest = skip_letters-name name digits h.1 k l in
    ground (arith, rest, h.0, length-append name digits)

-- A name of letters with a number behind it, of fewer than 256 bytes together, has that number as
-- its index.
pub get_cmd_index-name :
    (name : List ℕ) (n : ℕ)
    → AreLetters name
    → n ≤ int_max
    → length (name ++ decimal n) < 256
    → get_cmd_index (name ++ decimal n) ≡ pos n
unfolding get_cmd_index
get_cmd_index-name name n h hi short =
    let digits = skip_letters-name name (decimal n) h (decimal-AreDigits n n) (decimal-pos n n) in
    let read = str_to_int-decimal n hi in
    let len = length-append name (decimal n) in
    let some_digits = decimal-pos n n in rw (digits, read) (ground arith)

-- A subcommand of a name and the number `i + 1` on the stack, a valid index, and a number within
-- the limits: that element of the array becomes the number, the others and the length stay, and 0
-- is returned.
pub array_uint_setting-element :
    (st : PrevCmd) (offset i v : ℕ) (name : List ℕ) (array : List ℕ) (min_val max_val : ℕ)
    → offset < st.depth
    → get_or st.cmds (st.depth - offset - 1) [] ≡ name ++ decimal (suc i)
    → AreLetters name
    → length (name ++ decimal (suc i)) < 256
    → suc i ≤ int_max
    → i < length array
    → v ≤ int_max
    → min_val ≤ v
    → v ≤ max_val
    → let r = array_uint_setting (decimal v) false st offset array min_val max_val in
      (r.result ≡ 0)
      × (length r.var ≡ length array)
      × ((j : ℕ) → get_or r.var j 0 ≡ (if j == i then v else get_or array j 0))
unfolding array_uint_setting get_prev_cmd_index selected array_reply store_element
array_uint_setting-element st offset i v name array min_val max_val h top l short hi inside hv lo
      up =
    let index : (leb st.depth offset) ≡ false = ground arith in
    let found : ltb i (length array) ≡ true = lt→ltb i (length array) inside in
    let low : ltb v min_val ≡ false = ground arith in
    let high : ltb max_val v ≡ false = ground arith in
    rw (index, top)
      (rw (get_cmd_index-name name (suc i) l hi short) (
        rw (found, str_to_int-decimal v hv)
          (rw (low, high)
            (
              refl,
              length-set array i v,
              λ j. ground (arith, get_or-set_self array i v 0, get_or-set_ne array i j v 0),
            ))))
