-- ===== src/Scanner/Display.antt =====
-- `regex_text_display` of src/regex_34401a.c.
pub mod Follows
use lcdpico_34401a.Common.{ℕ, List, [], ◌∷◌, true, false}
use lcdpico_34401a.Scanner.Machine.{Arm, Block, byte, range, to, read, give, skip_give, Program}

-- The cases of both `switch`es.
unfoldable pub display_arms : List Arm
display_arms = to 150 (byte b' ' ∷ range b'+' b';' ∷ range b'A' b'a' ∷ []) ∷ []

unfoldable pub display_blocks : List Block
unfolding display_arms
display_blocks =
    -- yy149
    skip_give false
    -- yy150
    ∷ read display_arms 151
    -- yy151
    ∷ give true
    ∷ []

unfoldable pub display_program : Program
unfolding display_arms display_blocks
display_program = record { arms = display_arms; default = 149; base = 149; blocks = display_blocks }
