-- ===== src/Util/Copies.antt =====
-- `strncopy` of src/util.c. A buffer is the list of its bytes; the source is a
-- C string without its terminator.
use lcdpico_34401a.Common.{
  ℕ, zero, suc, ◌-◌, ◌<◌, ◌≤◌, ◌≡◌, refl, ap, ◌∙◌, arith, Bool, true, false, List, [], ◌∷◌, length,
  length-set, take, drop, set, ltb, ◌==◌, if◌then◌else◌, before, IsFree,
}

abbrev pub is_zero : ℕ → Bool
is_zero c = c == 0

-- The C string that a buffer holds.
abbrev pub c_string : List ℕ → List ℕ
c_string buf = before is_zero buf

-- `strncpy(dst, src, n)`: the source is filled up with zeros.
unfoldable pub strncpy : ℕ → List ℕ → List ℕ → List ℕ
strncpy zero dst src = dst
strncpy (suc n) [] src = []
strncpy (suc n) (d ∷ dst) [] = 0 ∷ strncpy n dst []
strncpy (suc n) (d ∷ dst) (c ∷ src) = c ∷ strncpy n dst src

-- `strncopy`, for pointers that are not null.
unfoldable pub strncopy : List ℕ → List ℕ → ℕ → List ℕ
unfolding strncpy
strncopy dst src size =
    if ltb size 1
    then dst
    else if ltb 1 size
    then set (strncpy (size - 1) dst src) (size - 1) 0
    else set dst (size - 1) 0

copy-eq :
    (n : ℕ) (dst src : List ℕ)
    → IsFree is_zero src
    → n < length dst
    → c_string (set (strncpy n dst src) n 0) ≡ take n src
unfolding strncpy
copy-eq zero [] src h l = absurd (omega arith)
copy-eq zero (d ∷ dst) src h l = refl
copy-eq (suc n) [] src h l = absurd (omega arith)
copy-eq (suc n) (d ∷ dst) [] h l = refl
copy-eq (suc n) (d ∷ dst) (c ∷ src) h l =
    rw h.0 (ap (λ s. c ∷ s) (copy-eq n dst src h.1 (omega arith)))

length-strncpy : (n : ℕ) (dst src : List ℕ) → length (strncpy n dst src) ≡ length dst
unfolding strncpy
length-strncpy zero dst src = refl
length-strncpy (suc n) [] src = refl
length-strncpy (suc n) (d ∷ dst) [] = ap suc (length-strncpy n dst [])
length-strncpy (suc n) (d ∷ dst) (c ∷ src) = ap suc (length-strncpy n dst src)

behind-copy :
    (n : ℕ) (dst src : List ℕ)
    → n < length dst
    → drop (suc n) (set (strncpy n dst src) n 0) ≡ drop (suc n) dst
unfolding strncpy
behind-copy zero [] src l = absurd (omega arith)
behind-copy zero (d ∷ dst) src l = refl
behind-copy (suc n) [] src l = absurd (omega arith)
behind-copy (suc n) (d ∷ dst) [] l = behind-copy n dst [] (omega arith)
behind-copy (suc n) (d ∷ dst) (c ∷ src) l = behind-copy n dst src (omega arith)

-- The test for a size of one saves an empty copy.
strncopy-suc : (dst src : List ℕ) (n : ℕ) → strncopy dst src (suc n) ≡ set (strncpy n dst src) n 0
unfolding strncopy strncpy
strncopy-suc dst src zero = refl
strncopy-suc dst src (suc n) =
    let n_eq : suc (suc n) - 1 ≡ suc n = omega arith in
    let wide : ltb 1 (suc (suc n)) ≡ true = ground arith in
    let not_none : ltb (suc (suc n)) 1 ≡ false = ground arith in rw (n_eq, wide, not_none) refl

-- Into a buffer with at least `size` bytes, at least one, the string is copied up to `size - 1`
-- bytes and terminated, and the bytes from `size` on and the length stay.
pub strncopy-c_string :
    (dst src : List ℕ) (size : ℕ)
    → IsFree is_zero src
    → 1 ≤ size
    → size ≤ length dst
    → (c_string (strncopy dst src size) ≡ take (size - 1) src)
      × (drop size (strncopy dst src size) ≡ drop size dst)
      × (length (strncopy dst src size) ≡ length dst)
strncopy-c_string dst src zero h l u = absurd (omega arith)
strncopy-c_string dst src (suc n) h l u =
    let n_eq : suc n - 1 ≡ n = omega arith in
    rw (strncopy-suc dst src n, n_eq)
      (
        copy-eq n dst src h u,
        behind-copy n dst src u,
        length-set (strncpy n dst src) n 0 ∙ length-strncpy n dst src,
      )
