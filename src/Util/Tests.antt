-- ===== src/Util/Tests.antt =====
-- The theorem on copies at a concrete input.
use lcdpico_34401a.Common.{ℕ, ◌≡◌, refl, arith, List, [], ◌∷◌, length, drop}
use lcdpico_34401a.Util.Powers.{pow_i64, pow_i64-pow}
use lcdpico_34401a.Util.Copies.{c_string, strncopy, strncopy-c_string}

abbrev four_bytes : List ℕ
four_bytes = 1 ∷ 2 ∷ 3 ∷ 4 ∷ []

-- "abc" into three bytes.
strncopy-c_string_example :
    let r = strncopy four_bytes (b'a' ∷ b'b' ∷ b'c' ∷ []) 3 in
    (c_string r ≡ b'a' ∷ b'b' ∷ []) × (drop 3 r ≡ 4 ∷ []) × (length r ≡ 4)
strncopy-c_string_example =
    strncopy-c_string four_bytes (b'a' ∷ b'b' ∷ b'c' ∷ []) 3 (refl, (refl, (refl, tt)))
      (omega arith) (omega arith)

pow_i64-pow_example : pow_i64 10 6 ≡ 1000000
pow_i64-pow_example = pow_i64-pow 10 6 (omega arith) (omega arith)
