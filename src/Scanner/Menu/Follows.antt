-- ===== src/Scanner/Menu/Follows.antt =====
-- The code of `regex_in_menu` follows the rules, for the class of menu text that the code has: a
-- check by evaluation, in parts.
use lcdpico_34401a.Common.{
  ℕ, ◌+◌, ◌-◌, ◌≤◌, ◌≡◌, refl, true, false, arith, Bool, [], ◌∷◌, get_or, leb, length,
}
use lcdpico_34401a.Scanner.Regex.{nullable, after_byte}
use lcdpico_34401a.Scanner.Regex.Prefixes.{Expect, expect, next}
use lcdpico_34401a.Scanner.Grammar.{in_menu_rules, menu_text_in_code}
use lcdpico_34401a.Scanner.Machine.{block_at}
use lcdpico_34401a.Scanner.Simulation.{
  Guide, switch_agrees, block_agrees, each_below, Follows, fits_after,
}
use lcdpico_34401a.Scanner.Simulation.Labels.{each_below-join, each_block}
use lcdpico_34401a.Scanner.Menu.{menu_program, menu_paths}

abbrev menu_rules : Expect
menu_rules = expect (in_menu_rules menu_text_in_code ∷ [])

-- The marker is set in the blocks yy46 to yy60, which the first `switch` goes to.
abbrev pub menu_guide : Guide
menu_guide = record {
  fits = λ l. fits_after (get_or menu_paths (l - 44) []) menu_rules;
  needs = λ l. leb 61 l;
}

abbrev label_agrees : ℕ → Bool
label_agrees l = block_agrees menu_program menu_guide l (block_at menu_program l)

first_agrees :
    switch_agrees menu_program menu_guide false menu_rules menu_program.arms menu_program.default
    ≡ true
unfolding switch_agrees menu_program menu_paths expect next nullable after_byte each_below
first_agrees = refl

agree_below_60 : each_below 60 (label_agrees) ≡ true
unfolding block_agrees menu_program menu_paths expect next nullable after_byte each_below
agree_below_60 = refl

agree_below_80 : each_below 20 (λ i. label_agrees (60 + i)) ≡ true
unfolding block_agrees menu_program menu_paths expect next nullable after_byte each_below
agree_below_80 = refl

agree_below_100 : each_below 20 (λ i. label_agrees (80 + i)) ≡ true
unfolding block_agrees menu_program menu_paths expect next nullable after_byte each_below
agree_below_100 = refl

agree_below_120 : each_below 20 (λ i. label_agrees (100 + i)) ≡ true
unfolding block_agrees menu_program menu_paths expect next nullable after_byte each_below
agree_below_120 = refl

agree_below_149 : each_below 29 (λ i. label_agrees (120 + i)) ≡ true
unfolding block_agrees menu_program menu_paths expect next nullable after_byte each_below
agree_below_149 = refl

all_agree : each_below 149 label_agrees ≡ true
all_agree =
    let until_80 = each_below-join 60 20 label_agrees agree_below_60 agree_below_80 in
    let until_100 = each_below-join 80 20 label_agrees until_80 agree_below_100 in
    let until_120 = each_below-join 100 20 label_agrees until_100 agree_below_120 in
    let until_149 = each_below-join 120 29 label_agrees until_120 agree_below_149 in until_149

size : menu_program.base + length menu_program.blocks ≤ 149
unfolding menu_program
size = omega arith

pub menu-Follows : Follows menu_program menu_guide menu_rules
menu-Follows = (first_agrees, each_block menu_program menu_guide 149 all_agree size)
