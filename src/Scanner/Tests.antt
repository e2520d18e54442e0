-- ===== src/Scanner/Tests.antt =====
-- Runs of the scanners, and the theorems at concrete lines.
use lcdpico_34401a.Common.{◌≡◌, refl, arith, true, false, ◌∷◌, some, codes}
use lcdpico_34401a.Scanner.Regex.{HasPrefix}
use lcdpico_34401a.Scanner.Machine.{scan, run}
use lcdpico_34401a.Scanner.Grammar.{
  valid_reading_rules, in_menu_rules, menu_text_in_code, text_display_rules, parameter,
}
use lcdpico_34401a.Scanner.Reading.{reading_program}
use lcdpico_34401a.Scanner.Menu.{menu_program}
use lcdpico_34401a.Scanner.Lines.{
  regex_valid_reading, regex_in_menu, regex_text_display, Answers, regex_valid_reading-Answers,
  regex_in_menu-Answers, regex_text_display-lower,
}

volts : regex_valid_reading (codes "+1.234567 mVDC") ≡ some true
unfolding regex_valid_reading scan run reading_program
volts = refl

no_digit_behind_point : regex_valid_reading (codes "1. VDC") ≡ some false
unfolding regex_valid_reading scan run reading_program
no_digit_behind_point = refl

-- The units end the match: what stands behind them does not matter.
more_behind : regex_valid_reading (codes "OVL.D  VDC#") ≡ some true
unfolding regex_valid_reading scan run reading_program
more_behind = refl

menu_line : regex_in_menu (codes "A: MEAS MENU") ≡ some true
unfolding regex_in_menu scan run menu_program
menu_line = refl

-- `[A-Za-z /-]` has the letter b and not the digit 1.
menu_lower : regex_in_menu (codes "A: b") ≡ some false
unfolding regex_in_menu scan run menu_program
menu_lower = refl

menu_digit : regex_in_menu (codes "A: 1") ≡ some true
unfolding regex_in_menu scan run menu_program
menu_digit = refl

regex_valid_reading-Answers_example :
    Answers (regex_valid_reading (codes "-0.5 kOHM")) valid_reading_rules (codes "-0.5 kOHM")
regex_valid_reading-Answers_example = regex_valid_reading-Answers (codes "-0.5 kOHM") refl

regex_in_menu-Answers_example :
    Answers
      (regex_in_menu (codes "1: AC VOLT"))
      (in_menu_rules menu_text_in_code)
      (codes "1: AC VOLT")
regex_in_menu-Answers_example = regex_in_menu-Answers (codes "1: AC VOLT") refl

regex_text_display-lower_example :
    (regex_text_display (b'o' ∷ codes "ff") ≡ some false)
    × HasPrefix (text_display_rules parameter) (b'o' ∷ codes "ff")
regex_text_display-lower_example =
    regex_text_display-lower b'o' (codes "ff") (omega arith) (omega arith) refl
