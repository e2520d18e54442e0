-- ===== src/Scanner/Menu.antt =====
-- `regex_in_menu` of src/regex_34401a.c.
mod Blocks1
mod Blocks2
mod Blocks3
mod Blocks4
mod Blocks5
mod Blocks6
pub mod Follows
use lcdpico_34401a.Common.{ℕ, List, [], ◌∷◌, ◌++◌, codes}
use lcdpico_34401a.Scanner.Machine.{byte, range, to, Program}
unfoldable pub use Blocks1.{menu_blocks_1}
unfoldable pub use Blocks2.{menu_blocks_2}
unfoldable pub use Blocks3.{menu_blocks_3}
unfoldable pub use Blocks4.{menu_blocks_4}
unfoldable pub use Blocks5.{menu_blocks_5}
unfoldable pub use Blocks6.{menu_blocks_6}

unfoldable pub menu_program : Program
unfolding menu_blocks_1 menu_blocks_2 menu_blocks_3 menu_blocks_4 menu_blocks_5 menu_blocks_6
menu_program = record {
  arms =
      to 46 (byte b' ' ∷ [])
      ∷ to 47 (range b'0' b'9' ∷ [])
      ∷ to 48 (
          range b'A' b'B'
          ∷ byte b'D'
          ∷ range b'F' b'L'
          ∷ byte b'O'
          ∷ range b'Q' b'S'
          ∷ range b'U' b'Z'
          ∷ [])
      ∷ to 49 (byte b'C' ∷ [])
      ∷ to 50 (byte b'E' ∷ [])
      ∷ to 51 (byte b'M' ∷ [])
      ∷ to 52 (byte b'N' ∷ [])
      ∷ to 53 (byte b'P' ∷ [])
      ∷ to 54 (byte b'T' ∷ [])
      ∷ to 55 (byte b'c' ∷ [])
      ∷ to 56 (byte b'e' ∷ [])
      ∷ to 57 (byte b'm' ∷ [])
      ∷ to 58 (byte b'n' ∷ [])
      ∷ to 59 (byte b'p' ∷ [])
      ∷ to 60 (byte b't' ∷ [])
      ∷ [];
  default = 44;
  base = 44;
  blocks =
      menu_blocks_1
      ++ (menu_blocks_2
          ++ (menu_blocks_3 ++ (menu_blocks_4 ++ (menu_blocks_5 ++ (menu_blocks_6)))));
}

-- A text that leads to each label, or nothing where no byte is read there.
unfoldable pub menu_paths : List (List ℕ)
menu_paths =
    []
    ∷ []
    ∷ codes " "
    ∷ codes "0"
    ∷ codes "A"
    ∷ codes "C"
    ∷ codes "E"
    ∷ codes "M"
    ∷ codes "N"
    ∷ codes "P"
    ∷ codes "T"
    ∷ codes "c"
    ∷ codes "e"
    ∷ codes "m"
    ∷ codes "n"
    ∷ codes "p"
    ∷ codes "t"
    ∷ codes "  "
    ∷ []
    ∷ []
    ∷ codes " C"
    ∷ codes " E"
    ∷ codes " M"
    ∷ codes " N"
    ∷ codes " P"
    ∷ codes " T"
    ∷ codes "0:"
    ∷ codes "A:"
    ∷ codes "CH"
    ∷ codes "CO"
    ∷ codes "EX"
    ∷ codes "MA"
    ∷ codes "ME"
    ∷ codes "MI"
    ∷ codes "NO"
    ∷ codes "PA"
    ∷ codes "TO"
    ∷ codes "0: "
    ∷ codes "A: "
    ∷ codes "CHA"
    ∷ codes "COM"
    ∷ codes "EXI"
    ∷ codes "MAX"
    ∷ codes "MEN"
    ∷ codes "NOT"
    ∷ codes "PAR"
    ∷ codes "TOP"
    ∷ codes "0:  "
    ∷ []
    ∷ codes "A:  "
    ∷ []
    ∷ codes "CHAN"
    ∷ codes "COMM"
    ∷ codes "EXIT"
    ∷ codes "MAX "
    ∷ codes "MENU"
    ∷ codes "NOT "
    ∷ codes "PARA"
    ∷ codes "TOP "
    ∷ codes "CHANG"
    ∷ codes "COMMA"
    ∷ codes "EXITI"
    ∷ codes "MAX V"
    ∷ codes "MENU "
    ∷ codes "MENUS"
    ∷ []
    ∷ codes "NOT E"
    ∷ codes "NOT R"
    ∷ codes "PARAM"
    ∷ codes "TOP O"
    ∷ codes "CHANGE"
    ∷ codes "COMMAN"
    ∷ codes "EXITIN"
    ∷ codes "MAX VA"
    ∷ codes "MENU B"
    ∷ codes "NOT EN"
    ∷ codes "NOT RE"
    ∷ codes "PARAME"
    ∷ codes "TOP OF"
    ∷ codes "CHANGE "
    ∷ codes "COMMAND"
    ∷ codes "MAX VAL"
    ∷ codes "MENU BO"
    ∷ codes "NOT ENT"
    ∷ codes "NOT REL"
    ∷ codes "PARAMET"
    ∷ codes "TOP OF "
    ∷ codes "CHANGE S"
    ∷ codes "MAX VALU"
    ∷ codes "MENU BOT"
    ∷ codes "NOT ENTE"
    ∷ codes "NOT RELE"
    ∷ codes "PARAMETE"
    ∷ codes "TOP OF M"
    ∷ codes "CHANGE SA"
    ∷ codes "MENU BOTT"
    ∷ codes "NOT ENTER"
    ∷ codes "NOT RELEV"
    ∷ codes "TOP OF ME"
    ∷ codes "MENU BOTTO"
    ∷ codes "NOT ENTERE"
    ∷ codes "NOT RELEVA"
    ∷ codes "TOP OF MEN"
    ∷ codes "NOT RELEVAN"
    ∷ []
