-- ===== src/Scanner/Reading/Follows.antt =====
-- The code of `regex_valid_reading` follows the rules: a check by evaluation.
use lcdpico_34401a.Common.{
  ◌+◌, ◌-◌, ◌≤◌, ◌≡◌, refl, true, false, arith, [], ◌∷◌, get_or, leb, length,
}
use lcdpico_34401a.Scanner.Regex.{nullable, after_byte}
use lcdpico_34401a.Scanner.Regex.Prefixes.{expect, next}
use lcdpico_34401a.Scanner.Grammar.{valid_reading_rules}
use lcdpico_34401a.Scanner.Machine.{block_at}
use lcdpico_34401a.Scanner.Simulation.{
  Guide, switch_agrees, block_agrees, each_below, Follows, fits_after,
}
use lcdpico_34401a.Scanner.Simulation.Labels.{each_block}
use lcdpico_34401a.Scanner.Reading.{reading_program, reading_paths}

-- The marker is set in the blocks yy3 to yy6, which the first `switch` goes to.
abbrev pub reading_guide : Guide
reading_guide = record {
  fits = λ l. fits_after (get_or reading_paths (l - 1) []) (expect (valid_reading_rules ∷ []));
  needs = λ l. leb 7 l;
}

first_agrees :
    switch_agrees reading_program reading_guide false
      (expect (valid_reading_rules ∷ []))
      reading_program.arms
      reading_program.default
    ≡ true
unfolding switch_agrees reading_program reading_paths expect next nullable after_byte each_below
first_agrees = refl

all_agree :
    each_below 43 (λ l. block_agrees reading_program reading_guide l (block_at reading_program l))
    ≡ true
unfolding block_agrees reading_program reading_paths expect next nullable after_byte each_below
all_agree = refl

size : reading_program.base + length reading_program.blocks ≤ 43
unfolding reading_program
size = omega arith

pub reading-Follows : Follows reading_program reading_guide (expect (valid_reading_rules ∷ []))
reading-Follows = (first_agrees, each_block reading_program reading_guide 43 all_agree size)
