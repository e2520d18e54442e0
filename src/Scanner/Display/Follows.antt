-- ===== src/Scanner/Display/Follows.antt =====
-- The code of `regex_text_display` follows its rule, for the class that the code has.
use lcdpico_34401a.Common.{◌+◌, ◌≤◌, ◌≡◌, refl, true, false, arith, [], ◌∷◌, length}
use lcdpico_34401a.Scanner.Regex.{nullable, after_byte}
use lcdpico_34401a.Scanner.Regex.Prefixes.{Expect, expect, next}
use lcdpico_34401a.Scanner.Grammar.{text_display_rules, parameter_in_code}
use lcdpico_34401a.Scanner.Machine.{block_at}
use lcdpico_34401a.Scanner.Simulation.{
  Guide, switch_agrees, block_agrees, each_below, Follows, fits_after,
}
use lcdpico_34401a.Scanner.Simulation.Labels.{each_block}
use lcdpico_34401a.Scanner.Display.{display_program}

abbrev display_rules : Expect
display_rules = expect (text_display_rules parameter_in_code ∷ [])

-- One block reads, behind the first character. There is no marker.
abbrev pub display_guide : Guide
display_guide = record { fits = λ l. fits_after (b' ' ∷ []) display_rules; needs = λ l. false }

first_agrees :
    switch_agrees display_program display_guide false display_rules display_program.arms
      display_program.default
    ≡ true
unfolding switch_agrees display_program expect next nullable after_byte each_below
first_agrees = refl

all_agree :
    each_below 152 (λ l. block_agrees display_program display_guide l (block_at display_program l))
    ≡ true
unfolding block_agrees display_program expect next nullable after_byte each_below
all_agree = refl

size : display_program.base + length display_program.blocks ≤ 152
unfolding display_program
size = omega arith

pub display-Follows : Follows display_program display_guide display_rules
display-Follows = (first_agrees, each_block display_program display_guide 152 all_agree size)
