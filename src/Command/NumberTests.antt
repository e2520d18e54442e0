-- ===== src/Command/NumberTests.antt =====
-- The theorems on numbers and settings at concrete inputs.
use lcdpico_34401a.Common.{
  ℕ, ◌≤◌, ◌≡◌, refl, arith, true, false, List, [], ◌∷◌, ◌++◌, length, get_or, ◌==◌, if◌then◌else◌,
}
use lcdpico_34401a.Command.Tree.{PrevCmd}
use lcdpico_34401a.Command.Numbers.{decimal, decimal_fuel}
use lcdpico_34401a.Command.Settings.{
  uint8_setting, uint16_setting, uint_setting-decimal, uint_setting-InRange, uint_setting-narrow,
}
use lcdpico_34401a.Command.Indices.{array_uint_setting, array_uint_setting-element}

-- "MBFAN"
abbrev name : List ℕ
name = b'M' ∷ b'B' ∷ b'F' ∷ b'A' ∷ b'N' ∷ []

abbrev on_second : PrevCmd
on_second = record { depth = 1; cmds = (name ++ (b'2' ∷ [])) ∷ [] }

abbrev three_values : List ℕ
three_values = 10 ∷ 20 ∷ 30 ∷ []

uint_setting-decimal_example :
    let set = uint16_setting (decimal 300) false 7 100 1000 in
    (set.result ≡ 0)
    × (set.var ≡ 300)
    × ((uint16_setting [] true set.var 100 1000).printed ≡ decimal 300 ++ (10 ∷ []))
uint_setting-decimal_example =
    uint_setting-decimal 65536 300 7 100 1000 (omega arith) (omega arith) (omega arith)
      (omega arith)

uint_setting-InRange_example :
    let r = uint8_setting (b'9' ∷ b'9' ∷ []) false 7 5 50 in (5 ≤ r.var) × (r.var ≤ 50)
uint_setting-InRange_example =
    uint_setting-InRange 256 (b'9' ∷ b'9' ∷ []) false 7 5 50 (omega arith) (omega arith)

-- 257 for 1
uint_setting-narrow_example :
    uint8_setting (decimal 257) false 7 0 50 ≡ uint8_setting (decimal 1) false 7 0 50
uint_setting-narrow_example = uint_setting-narrow 256 1 1 7 0 50 (omega arith) (omega arith)

array_uint_setting-element_example :
    let r = array_uint_setting (decimal 25) false on_second 0 three_values 5 50 in
    (r.result ≡ 0)
    × (length r.var ≡ 3)
    × ((j : ℕ) → get_or r.var j 0 ≡ (if j == 1 then 25 else get_or three_values j 0))
array_uint_setting-element_example =
    array_uint_setting-element on_second 0 1 25 name three_values 5 50 (omega arith)
      (unfold decimal_fuel in refl) (refl, (refl, (refl, (refl, (refl, tt)))))
      (unfold decimal_fuel in omega arith) (omega arith) (omega arith) (omega arith) (omega arith)
      (omega arith)
