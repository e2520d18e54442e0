-- ===== src/Log.antt =====
-- The names of priorities and facilities, src/log.c.
pub mod Tests
use lcdpico_34401a.Common.{
  ℕ, suc, ◌≡◌, ◌≢◌, refl, arith, Bool, true, false, ◌&&◌, List, [], ◌∷◌, ◌==◌, if◌then◌else◌,
  Option, none, some, tolower, Bool-cases, inl, inr, ==_iff,
}
use lcdpico_34401a.Common.Int.{ℤ, pos, negsuc}

-- `struct log_priority` and `struct log_facility`
pub record Named : Type 0 where
  pub code : ℕ
  pub name : List ℕ

abbrev named : ℕ → List ℕ → Named
named code name = record { code = code; name = name }

-- The arrays up to the entry without a name.
abbrev pub log_priorities : List Named
log_priorities =
    named 0 (b'E' ∷ b'M' ∷ b'E' ∷ b'R' ∷ b'G' ∷ [])
    ∷ named 1 (b'A' ∷ b'L' ∷ b'E' ∷ b'R' ∷ b'T' ∷ [])
    ∷ named 2 (b'C' ∷ b'R' ∷ b'I' ∷ b'T' ∷ [])
    ∷ named 3 (b'E' ∷ b'R' ∷ b'R' ∷ [])
    ∷ named 4 (b'W' ∷ b'A' ∷ b'R' ∷ b'N' ∷ b'I' ∷ b'N' ∷ b'G' ∷ [])
    ∷ named 5 (b'N' ∷ b'O' ∷ b'T' ∷ b'I' ∷ b'C' ∷ b'E' ∷ [])
    ∷ named 6 (b'I' ∷ b'N' ∷ b'F' ∷ b'O' ∷ [])
    ∷ named 7 (b'D' ∷ b'E' ∷ b'B' ∷ b'U' ∷ b'G' ∷ [])
    ∷ []

abbrev pub log_facilities : List Named
log_facilities =
    named 0 (b'K' ∷ b'E' ∷ b'R' ∷ b'N' ∷ [])
    ∷ named 1 (b'U' ∷ b'S' ∷ b'E' ∷ b'R' ∷ [])
    ∷ named 2 (b'M' ∷ b'A' ∷ b'I' ∷ b'L' ∷ [])
    ∷ named 3 (b'D' ∷ b'A' ∷ b'E' ∷ b'M' ∷ b'O' ∷ b'N' ∷ [])
    ∷ named 4 (b'A' ∷ b'U' ∷ b'T' ∷ b'H' ∷ [])
    ∷ named 5 (b'S' ∷ b'Y' ∷ b'S' ∷ b'L' ∷ b'O' ∷ b'G' ∷ [])
    ∷ named 6 (b'L' ∷ b'P' ∷ b'R' ∷ [])
    ∷ named 7 (b'N' ∷ b'E' ∷ b'W' ∷ b'S' ∷ [])
    ∷ named 8 (b'U' ∷ b'U' ∷ b'C' ∷ b'P' ∷ [])
    ∷ named 9 (b'C' ∷ b'R' ∷ b'O' ∷ b'N' ∷ [])
    ∷ named 10 (b'A' ∷ b'U' ∷ b'T' ∷ b'H' ∷ b'P' ∷ b'R' ∷ b'I' ∷ b'V' ∷ [])
    ∷ named 11 (b'F' ∷ b'T' ∷ b'P' ∷ [])
    ∷ named 16 (b'L' ∷ b'O' ∷ b'C' ∷ b'A' ∷ b'L' ∷ b'0' ∷ [])
    ∷ named 17 (b'L' ∷ b'O' ∷ b'C' ∷ b'A' ∷ b'L' ∷ b'1' ∷ [])
    ∷ named 18 (b'L' ∷ b'O' ∷ b'C' ∷ b'A' ∷ b'L' ∷ b'2' ∷ [])
    ∷ named 19 (b'L' ∷ b'O' ∷ b'C' ∷ b'A' ∷ b'L' ∷ b'3' ∷ [])
    ∷ named 20 (b'L' ∷ b'O' ∷ b'C' ∷ b'A' ∷ b'L' ∷ b'4' ∷ [])
    ∷ named 21 (b'L' ∷ b'O' ∷ b'C' ∷ b'A' ∷ b'L' ∷ b'5' ∷ [])
    ∷ named 22 (b'L' ∷ b'O' ∷ b'C' ∷ b'A' ∷ b'L' ∷ b'6' ∷ [])
    ∷ named 23 (b'L' ∷ b'O' ∷ b'C' ∷ b'A' ∷ b'L' ∷ b'7' ∷ [])
    ∷ []

-- `!strcasecmp(s, t)`
unfoldable pub strcase_eq : List ℕ → List ℕ → Bool
strcase_eq [] [] = true
strcase_eq [] (d ∷ t) = false
strcase_eq (c ∷ s) [] = false
strcase_eq (c ∷ s) (d ∷ t) = tolower c == tolower d && strcase_eq s t

-- The loop of `str2log_priority` and `str2log_facility`.
unfoldable pub code_of : List Named → List ℕ → ℤ
code_of [] s = negsuc 0
code_of (e ∷ es) s = let rest = code_of es s in if strcase_eq e.name s then pos e.code else rest

-- The loop of `log_priority2str` and `log_facility2str`.
unfoldable pub name_of : List Named → ℕ → Option (List ℕ)
name_of [] code = none
name_of (e ∷ es) code = let rest = name_of es code in if e.code == code then some e.name else rest

-- The four functions, for strings that are not null and numbers that are not negative.
abbrev pub str2log_priority : List ℕ → ℤ
str2log_priority = code_of log_priorities

abbrev pub log_priority2str : ℕ → Option (List ℕ)
log_priority2str = name_of log_priorities

abbrev pub str2log_facility : List ℕ → ℤ
str2log_facility = code_of log_facilities

abbrev pub log_facility2str : ℕ → Option (List ℕ)
log_facility2str = name_of log_facilities

-- Each name of the first table is found with its code in the second.
abbrev AreFound : List Named → List Named → Type 0
AreFound [] table = Unit
AreFound (e ∷ es) table = (code_of table e.name ≡ pos e.code) × AreFound es table

name_code :
    (es table : List Named) (code : ℕ) (s : List ℕ)
    → AreFound es table
    → name_of es code ≡ some s
    → code_of table s ≡ pos code
unfolding name_of
name_code [] table code s found h = absurd (ground (arith, h))
name_code (e ∷ es) table code s found h = elim (Bool-cases (e.code == code)) [
  | inl same ↦ ground (arith, found.0)
  | inr other ↦ name_code es table code s found.1 (ground (arith, h))
]

-- The name that a number has as a priority is read back as that number.
str2log_priority-log_priority2str :
    (code : ℕ) (s : List ℕ) → log_priority2str code ≡ some s → str2log_priority s ≡ pos code
unfolding code_of strcase_eq
str2log_priority-log_priority2str code s =
    name_code log_priorities log_priorities code s
      (refl, (refl, (refl, (refl, (refl, (refl, (refl, (refl, tt))))))))

-- The name that a number has as a facility is read back as that number.
str2log_facility-log_facility2str :
    (code : ℕ) (s : List ℕ) → log_facility2str code ≡ some s → str2log_facility s ≡ pos code
unfolding code_of strcase_eq
str2log_facility-log_facility2str code s = name_code log_facilities log_facilities code s (
  refl,
  (
    refl,
    (
      refl,
      (
        refl,
        (
          refl,
          (
            refl,
            (
              refl,
              (
                refl,
                (
                  refl,
                  (
                    refl,
                    (
                      refl,
                      (refl, (refl, (refl, (refl, (refl, (refl, (refl, (refl, (refl, tt))))))))),
                    ),
                  ),
                ),
              ),
            ),
          ),
        ),
      ),
    ),
  ),
)

-- The names that two numbers have, the first as a priority and the second as a facility, are read
-- back as these numbers.
pub names_lem :
    (priority facility : ℕ) (s t : List ℕ)
    → log_priority2str priority ≡ some s
    → log_facility2str facility ≡ some t
    → (str2log_priority s ≡ pos priority) × (str2log_facility t ≡ pos facility)
names_lem priority facility s t h k =
    (str2log_priority-log_priority2str priority s h, str2log_facility-log_facility2str facility t k)
