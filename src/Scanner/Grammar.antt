-- ===== src/Scanner/Grammar.antt =====
-- The expressions of src/regex_34401a.re.

use lcdpico_34401a.Common.{ℕ, ◌+◌, ◌&&◌, List, [], ◌∷◌, ◌++◌, leb, if◌then◌else◌, codes}
use lcdpico_34401a.Scanner.Regex.{Class, Regex, eps, one, many, seq, alt}

abbrev pub single : ℕ → Class
single c = (c, c) ∷ []

abbrev pub blank : Class
blank = single b' '

abbrev pub digit : Class
digit = (b'0', b'9') ∷ []

-- `'…'`: a letter in either case.
abbrev either_case : ℕ → Class
either_case c = if leb b'A' c && leb c b'Z' then (c, c) ∷ (c + 32, c + 32) ∷ [] else single c

-- Expressions in a row, the last one apart.
abbrev in_row : List Regex → Regex → Regex
in_row [] r = r
in_row (q ∷ qs) r = seq q (in_row qs r)

abbrev any_of : List Regex → Regex → Regex
any_of [] r = r
any_of (q ∷ qs) r = alt q (any_of qs r)

-- `"…"` and `'…'`, for words that are not empty.
abbrev exactly : List ℕ → Regex
exactly [] = eps
exactly (c ∷ []) = one (single c)
exactly (c ∷ d ∷ s) = seq (one (single c)) (exactly (d ∷ s))

abbrev word : List ℕ → Regex
word [] = eps
word (c ∷ []) = one (either_case c)
word (c ∷ d ∷ s) = seq (one (either_case c)) (word (d ∷ s))

-- `k+` and `r?`
abbrev some_of : Class → Regex
some_of k = seq (one k) (many k)

abbrev maybe : Regex → Regex
maybe r = alt r eps

abbrev prefix : Class
prefix =
    single b'u'
    ++ single b'U'
    ++ single b'k'
    ++ single b'K'
    ++ single b'm'
    ++ single b'M'
    ++ single b'g'
    ++ single b'G'

abbrev units : Regex
units =
    any_of
      (word (codes "VDC")
        ∷ word (codes "VAC")
        ∷ word (codes "AAC")
        ∷ word (codes "ADC")
        ∷ word (codes "OHM")
        ∷ word (codes "HZ")
        ∷ word (codes "DB")
        ∷ [])
      (word (codes "SEC"))

abbrev sign : Class
sign = single b'+' ++ single b'-'

abbrev reading_rule : Regex
reading_rule =
    in_row
      (maybe (one sign)
        ∷ many blank
        ∷ some_of digit
        ∷ maybe (seq (one (single b'.')) (some_of digit))
        ∷ many blank
        ∷ maybe (one prefix)
        ∷ units
        ∷ [])
      (many blank)

abbrev reading_misc : Regex
reading_misc =
    in_row
      (many blank
        ∷ alt (in_row (exactly (codes "OVL.D") ∷ some_of blank ∷ maybe (one prefix) ∷ []) units)
            (exactly (codes "OPEN"))
        ∷ [])
      (many blank)

-- The rules of `regex_valid_reading`.
abbrev pub valid_reading_rules : Regex
valid_reading_rules = alt reading_misc reading_rule

-- `menu` and `submenu`, for a class of menu text.
abbrev menu : Class → Class → Regex
menu item text =
    in_row (one item ∷ one (single b':') ∷ some_of blank ∷ some_of text ∷ []) (many blank)

abbrev menu_misc : Regex
menu_misc =
    in_row
      (many blank
        ∷ any_of
            (word (codes "TOP OF MENU")
              ∷ word (codes "MENUS")
              ∷ word (codes "COMMANDS")
              ∷ word (codes "PARAMETER")
              ∷ word (codes "MENU BOTTOM")
              ∷ word (codes "CHANGE SAVED")
              ∷ word (codes "MIN VALUE")
              ∷ word (codes "MAX VALUE")
              ∷ word (codes "EXITING MENU")
              ∷ word (codes "NOT ENTERED")
              ∷ [])
            (word (codes "NOT RELEVANT"))
        ∷ [])
      (many blank)

-- The rules of `regex_in_menu`, over the class of menu text.
abbrev pub in_menu_rules : Class → Regex
in_menu_rules text = any_of (menu_misc ∷ menu ((b'A', b'Z') ∷ []) text ∷ []) (menu digit text)

-- `menutext` as it stands there, and as the generated code has it.
abbrev pub menu_text : Class
menu_text = (b'A', b'Z') ∷ (b'a', b'z') ∷ (single b' ' ++ single b'/' ++ single b'-')

abbrev pub menu_text_in_code : Class
menu_text_in_code = (b' ', b' ') ∷ (b'/', b'a') ∷ []

-- The rules of `regex_text_display`, over the class of parameters.
abbrev pub text_display_rules : Class → Regex
text_display_rules k = some_of k

-- `parameter` as it stands there, and as the generated code has it.
abbrev pub parameter : Class
parameter =
    (b'A', b'Z')
    ∷ (b'a', b'z')
    ∷ (b'0', b'9')
    ∷ (single b' '
        ++ single b'.'
        ++ single b','
        ++ single b':'
        ++ single b';'
        ++ single b'/'
        ++ single b'^'
        ++ single b'_'
        ++ single b'+'
        ++ single b'-')

abbrev pub parameter_in_code : Class
parameter_in_code = (b' ', b' ') ∷ (b'+', b';') ∷ (b'A', b'a') ∷ []
