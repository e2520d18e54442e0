-- ===== src/Scanner/Lines.antt =====
-- The functions of src/regex_34401a.c, and what they answer for a line.

use lcdpico_34401a.Common.{
  ℕ, ◌≤◌, ◌≡◌, ◌↔◌, refl, ap, ◌∙◌, arith, Bool, true, false, List, [], ◌∷◌, ◌++◌, map,
  if◌then◌else◌, ltb, Option, some,
}
use lcdpico_34401a.Scanner.Regex.{
  Class, Regex, eps, many, cat, in_class, HasPrefix, nullable, after_byte,
}
use lcdpico_34401a.Scanner.Regex.Prefixes.{
  awaits, expect, next, after_any, any_nullable, accepts, accepts_iff_HasPrefix,
}
use lcdpico_34401a.Scanner.Machine.{scan}
use lcdpico_34401a.Scanner.Grammar.{
  valid_reading_rules, in_menu_rules, menu_text_in_code, text_display_rules, parameter,
  parameter_in_code,
}
use lcdpico_34401a.Scanner.Simulation.Agree.{dead-accepts, AllBytes, scan-accepts}
use lcdpico_34401a.Scanner.Reading.{reading_program}
use lcdpico_34401a.Scanner.Reading.Follows.{reading_guide, reading-Follows}
use lcdpico_34401a.Scanner.Menu.{menu_program}
use lcdpico_34401a.Scanner.Menu.Follows.{menu_guide, menu-Follows}
use lcdpico_34401a.Scanner.Display.{display_program}
use lcdpico_34401a.Scanner.Display.Follows.{display_guide, display-Follows}

unfoldable pub regex_valid_reading : List ℕ → Option Bool
regex_valid_reading = scan reading_program

unfoldable pub regex_in_menu : List ℕ → Option Bool
regex_in_menu = scan menu_program

unfoldable pub regex_text_display : List ℕ → Option Bool
regex_text_display = scan display_program

-- The scanner returns, and the answer is whether the expression matches the line's beginning.
abbrev pub Answers : Option Bool → Regex → List ℕ → Type 0
Answers o r s = (b : Bool) × (o ≡ some b) × ((b ≡ true) ↔ HasPrefix r s)

-- For every line of bytes, `regex_valid_reading` returns, without reading behind the terminator or
-- going back to a marker that is not set, and the answer is true exactly if the rules of a reading
-- match the beginning of the line.
pub regex_valid_reading-Answers :
    (s : List ℕ) → AllBytes s → Answers (regex_valid_reading s) valid_reading_rules s
unfolding regex_valid_reading
regex_valid_reading-Answers s bytes = (
  accepts (expect (valid_reading_rules ∷ [])) s,
  scan-accepts reading_program reading_guide (expect (valid_reading_rules ∷ [])) s reading-Follows
      bytes,
  accepts_iff_HasPrefix valid_reading_rules s,
)

-- For every line of bytes, `regex_in_menu` returns, and the answer is true exactly if the rules of a
-- menu line, with the blank and the bytes from the slash to the letter a as menu text, match the
-- beginning of the line.
pub regex_in_menu-Answers :
    (s : List ℕ) → AllBytes s → Answers (regex_in_menu s) (in_menu_rules menu_text_in_code) s
unfolding regex_in_menu
regex_in_menu-Answers s bytes = (
  accepts (expect (in_menu_rules menu_text_in_code ∷ [])) s,
  scan-accepts menu_program menu_guide (expect (in_menu_rules menu_text_in_code ∷ [])) s
      menu-Follows bytes,
  accepts_iff_HasPrefix (in_menu_rules menu_text_in_code) s,
)

-- For every line of bytes, `regex_text_display` returns, and the answer is true exactly if a
-- character of its class stands at the beginning of the line.
pub regex_text_display-Answers :
    (s : List ℕ)
    → AllBytes s
    → Answers (regex_text_display s) (text_display_rules parameter_in_code) s
unfolding regex_text_display
regex_text_display-Answers s bytes = (
  accepts (expect (text_display_rules parameter_in_code ∷ [])) s,
  scan-accepts display_program display_guide (expect (text_display_rules parameter_in_code ∷ [])) s
      display-Follows bytes,
  accepts_iff_HasPrefix (text_display_rules parameter_in_code) s,
)

accepts-one_step :
    (k : Class) (s : List ℕ) (found : Bool)
    → accepts (expect ((map (λ x. cat x (many k)) (if found then eps ∷ [] else []) ++ []) ++ [])) s
      ≡ found
unfolding accepts expect any_nullable nullable cat
accepts-one_step k s true = refl
accepts-one_step k s false = dead-accepts (awaits []) s refl

accepts-some_of :
    (k : Class) (c : ℕ) (s : List ℕ)
    → accepts (expect (text_display_rules k ∷ [])) (c ∷ s) ≡ in_class k c
unfolding accepts next expect after_any any_nullable after_byte nullable
accepts-some_of k c s = accepts-one_step k s (in_class k c)

-- `regex_text_display` judges a line of bytes by its first character alone: it returns true if that
-- is a blank, or lies between the plus sign and the semicolon or between A and a, and otherwise false.
pub regex_text_display-first :
    (c : ℕ) (s : List ℕ)
    → AllBytes (c ∷ s)
    → regex_text_display (c ∷ s) ≡ some (in_class parameter_in_code c)
unfolding regex_text_display
regex_text_display-first c s bytes =
    scan-accepts display_program display_guide (expect (text_display_rules parameter_in_code ∷ []))
      (c ∷ s) display-Follows bytes
    ∙ ap some (accepts-some_of parameter_in_code c s)

-- A line of bytes that begins with a letter from b to z is not taken by `regex_text_display`, though
-- the expression of src/regex_34401a.re, in which all letters are parameters, matches its first
-- character.
pub regex_text_display-lower :
    (c : ℕ) (s : List ℕ)
    → b'b' ≤ c
    → c ≤ b'z'
    → AllBytes s
    → (regex_text_display (c ∷ s) ≡ some false) × HasPrefix (text_display_rules parameter) (c ∷ s)
unfolding in_class
regex_text_display-lower c s low high bytes =
    let here : ltb c 256 ≡ true = ground (arith, high) in
    let every : AllBytes (c ∷ s) = rw (here, bytes) refl in
    let outside : in_class parameter_in_code c ≡ false = ground (arith, low, high) in
    let inside : in_class parameter c ≡ true = ground (arith, low, high) in
    (
      regex_text_display-first c s every ∙ ap some outside,
      (c ∷ [], s, refl, (c ∷ [], [], refl, (c, refl, inside), refl)),
    )
