-- ===== src/Command/Spelling.antt =====
-- How a subcommand may be spelled: the search of `run_cmd`, against the names of the tables.
use lcdpico_34401a.Common.{
  ℕ, zero, suc, ◌-◌, ◌≤◌, ◌≡◌, refl, sym, ap, ◌∙◌, arith, inl, inr, ==_iff, Bool-cases, Bool, true,
  false, not, ◌&&◌, ◌||◌, List, [], ◌∷◌, length, drop, all, leb, ◌==◌, if◌then◌else◌, tolower,
  strncase_eq,
}

-- What may follow a name: a question mark, or the digits of a number.
abbrev pub is_mark : ℕ → Bool
is_mark c = c == b'?' || leb b'0' c && leb c b'9'

abbrev is_same : ℕ → ℕ → Bool
is_same c d = tolower c == tolower d

-- `s` begins with at least `m` bytes of the name, in any letter case, and goes on with marks.
unfoldable pub is_spelling : ℕ → List ℕ → List ℕ → Bool
is_spelling m [] s = m == 0 && all is_mark s
is_spelling m (d ∷ cmd) [] = m == 0
is_spelling m (d ∷ cmd) (c ∷ s) =
    let rest = is_spelling (m - 1) cmd s in
    if is_same c d then rest else m == 0 && all is_mark (c ∷ s)

-- No mark stands in a name behind its first `m` bytes.
abbrev pub is_word : ℕ → List ℕ → Bool
is_word m cmd = all (λ c. not (is_mark c)) (drop m cmd)

-- Both sides of a conjunction.
pub and_both : (b c : Bool) → (b && c) ≡ true → (b ≡ true) × (c ≡ true)
and_both true c h = (refl, h)
and_both false c h = absurd (ground arith)

and_false : (b c : Bool) → b ≡ false → (b && c) ≡ false
and_false b c h = rw h refl

-- A mark is no letter, so it differs from all that are not marks.
mark_ne : (c d : ℕ) → is_mark c ≡ true → not (is_mark d) ≡ true → (tolower c == tolower d) ≡ false
mark_ne c d h k = ground arith

same_trans :
    (c y d : ℕ)
    → (tolower c == tolower y) ≡ true
    → (tolower y == tolower d) ≡ (tolower c == tolower d)
same_trans c y d h =
    let e : tolower c ≡ tolower y = (==_iff (tolower c) (tolower y)).0 h in
    ap (λ n. n == tolower d) (sym e)

is_word-tail : (m d : ℕ) (cmd : List ℕ) → is_word m (d ∷ cmd) ≡ true → is_word (m - 1) cmd ≡ true
is_word-tail zero d cmd h = (and_both (not (is_mark d)) (is_word 0 cmd) h).1
is_word-tail (suc m) d cmd h = let e : suc m - 1 ≡ m = omega arith in rw e h

pub strncase_eq-spelling :
    (m : ℕ) (cmd s : List ℕ) → is_spelling m cmd s ≡ true → strncase_eq m s cmd ≡ true
unfolding strncase_eq is_spelling
strncase_eq-spelling zero cmd s h = refl
strncase_eq-spelling (suc m) [] s h = absurd (ground arith)
strncase_eq-spelling (suc m) (d ∷ cmd) [] h = absurd (ground arith)
strncase_eq-spelling (suc m) (d ∷ cmd) (c ∷ s) h = elim (Bool-cases (tolower c == tolower d)) [
  | inl e ↦
      let e' : suc m - 1 ≡ m = omega arith in
      let k : is_spelling m cmd s ≡ true = rw (e, e') at h in
      rw (e, strncase_eq-spelling m cmd s k) refl
  | inr e ↦ absurd (ground arith)
]

-- A mark in the place of a byte of a name.
later_mark :
    (m n c d : ℕ) (s cmd' : List ℕ)
    → (m == 0 && all is_mark (c ∷ s)) ≡ true
    → is_word m (d ∷ cmd') ≡ true
    → strncase_eq (suc n) (c ∷ s) (d ∷ cmd') ≡ false
unfolding strncase_eq
later_mark zero n c d s cmd' h w =
    let here : is_mark c ≡ true = (and_both (is_mark c) (all is_mark s) h).0 in
    let there : not (is_mark d) ≡ true = (and_both (not (is_mark d)) (is_word 0 cmd') w).0 in
    rw (mark_ne c d here there) refl
later_mark (suc m) n c d s cmd' h w = absurd (ground arith)

-- A spelling of a name does not agree with an entry that the name itself does not agree with.
pub strncase_eq-later :
    (m n : ℕ) (cmd cmd' s : List ℕ)
    → is_spelling m cmd s ≡ true
    → is_word m cmd' ≡ true
    → n ≤ length cmd'
    → strncase_eq n cmd cmd' ≡ false
    → strncase_eq n s cmd' ≡ false
unfolding strncase_eq is_spelling
strncase_eq-later m zero cmd cmd' s h w k e = absurd (ground arith)
strncase_eq-later m (suc n) cmd [] s h w k e = absurd (omega arith)
strncase_eq-later m (suc n) cmd (d ∷ cmd') [] h w k e = refl
strncase_eq-later m (suc n) [] (d ∷ cmd') (c ∷ s) h w k e = later_mark m n c d s cmd' h w
strncase_eq-later m (suc n) (y ∷ cmd) (d ∷ cmd') (c ∷ s) h w k e =
    elim (Bool-cases (tolower c == tolower y)) [
      | inr ne ↦ later_mark m n c d s cmd' (rw ne at h) w
      | inl eq ↦ elim (Bool-cases (tolower c == tolower d)) [
        | inr ne ↦ and_false (tolower c == tolower d) (strncase_eq n s cmd') ne
        | inl same ↦
            let names : (tolower y == tolower d) ≡ true = same_trans c y d eq ∙ same in
            let below : strncase_eq n cmd cmd' ≡ false = rw names at e in
            rw
              (
                same,
                strncase_eq-later (m - 1) n cmd cmd' s (rw eq at h) (is_word-tail m d cmd' w)
                    (omega arith) below,
              )
              refl
      ]
    ]
