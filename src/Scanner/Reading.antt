-- ===== src/Scanner/Reading.antt =====
-- `regex_valid_reading` of src/regex_34401a.c.
mod Blocks1
mod Blocks2
mod Blocks3
pub mod Follows
use lcdpico_34401a.Common.{ℕ, List, [], ◌∷◌, ◌++◌, codes}
use lcdpico_34401a.Scanner.Machine.{byte, range, to, Program}
unfoldable pub use Blocks1.{reading_blocks_1}
unfoldable pub use Blocks2.{reading_blocks_2}
unfoldable pub use Blocks3.{reading_blocks_3}

unfoldable pub reading_program : Program
unfolding reading_blocks_1 reading_blocks_2 reading_blocks_3
reading_program = record {
  arms =
      to 3 (byte b' ' ∷ [])
      ∷ to 4 (byte b'+' ∷ byte b'-' ∷ [])
      ∷ to 5 (range b'0' b'9' ∷ [])
      ∷ to 6 (byte b'O' ∷ [])
      ∷ [];
  default = 1;
  base = 1;
  blocks = reading_blocks_1 ++ (reading_blocks_2 ++ (reading_blocks_3));
}

-- A text that leads to each label, or nothing where no byte is read there.
unfoldable pub reading_paths : List (List ℕ)
reading_paths =
    []
    ∷ []
    ∷ codes " "
    ∷ codes "+"
    ∷ codes "0"
    ∷ codes "O"
    ∷ codes "  "
    ∷ []
    ∷ codes " 0"
    ∷ codes " O"
    ∷ codes "+ "
    ∷ codes "0 "
    ∷ []
    ∷ codes "0."
    ∷ codes "0A"
    ∷ codes "0D"
    ∷ codes "0G"
    ∷ codes "0H"
    ∷ codes "0O"
    ∷ codes "0S"
    ∷ codes "OP"
    ∷ codes "OV"
    ∷ codes "0.0"
    ∷ codes "0AA"
    ∷ codes "0DB"
    ∷ []
    ∷ codes "0OH"
    ∷ codes "OPE"
    ∷ codes "OVL"
    ∷ codes "OPEN"
    ∷ []
    ∷ codes "OVL."
    ∷ codes "OVL.D"
    ∷ codes "OVL.D "
    ∷ codes "OVL.D A"
    ∷ codes "OVL.D D"
    ∷ codes "OVL.D G"
    ∷ codes "OVL.D H"
    ∷ codes "OVL.D O"
    ∷ codes "OVL.D S"
    ∷ codes "OVL.D AA"
    ∷ codes "OVL.D OH"
    ∷ []
