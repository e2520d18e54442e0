-- ===== src/Scanner/Menu/Blocks1.antt =====
-- `regex_in_menu` of src/regex_34401a.c, labels yy44 to yy61.
use lcdpico_34401a.Common.{List, [], ◌∷◌, false}
use lcdpico_34401a.Scanner.Machine.{Block, byte, give, mark, range, read, skip, to}

unfoldable pub menu_blocks_1 : List Block
menu_blocks_1 =
    -- yy44
    skip 45
    -- yy45
    ∷ give false
    -- yy46
    ∷ mark
        (to 62 (
            byte b' '
            ∷ byte b'C'
            ∷ byte b'E'
            ∷ range b'M' b'N'
            ∷ byte b'P'
            ∷ byte b'T'
            ∷ byte b'c'
            ∷ byte b'e'
            ∷ range b'm' b'n'
            ∷ byte b'p'
            ∷ byte b't'
            ∷ [])
          ∷ [])
        45
    -- yy47
    ∷ mark (to 70 (byte b':' ∷ []) ∷ []) 45
    -- yy48
    ∷ mark (to 71 (byte b':' ∷ []) ∷ []) 45
    -- yy49
    ∷ mark
        (to 71 (byte b':' ∷ [])
          ∷ to 72 (byte b'H' ∷ byte b'h' ∷ [])
          ∷ to 73 (byte b'O' ∷ byte b'o' ∷ [])
          ∷ [])
        45
    -- yy50
    ∷ mark (to 71 (byte b':' ∷ []) ∷ to 74 (byte b'X' ∷ byte b'x' ∷ []) ∷ []) 45
    -- yy51
    ∷ mark
        (to 71 (byte b':' ∷ [])
          ∷ to 75 (byte b'A' ∷ byte b'a' ∷ [])
          ∷ to 76 (byte b'E' ∷ byte b'e' ∷ [])
          ∷ to 77 (byte b'I' ∷ byte b'i' ∷ [])
          ∷ [])
        45
    -- yy52
    ∷ mark (to 71 (byte b':' ∷ []) ∷ to 78 (byte b'O' ∷ byte b'o' ∷ []) ∷ []) 45
    -- yy53
    ∷ mark (to 71 (byte b':' ∷ []) ∷ to 79 (byte b'A' ∷ byte b'a' ∷ []) ∷ []) 45
    -- yy54
    ∷ mark (to 71 (byte b':' ∷ []) ∷ to 80 (byte b'O' ∷ byte b'o' ∷ []) ∷ []) 45
    -- yy55
    ∷ mark (to 72 (byte b'H' ∷ byte b'h' ∷ []) ∷ to 73 (byte b'O' ∷ byte b'o' ∷ []) ∷ []) 45
    -- yy56
    ∷ mark (to 74 (byte b'X' ∷ byte b'x' ∷ []) ∷ []) 45
    -- yy57
    ∷ mark
        (to 75 (byte b'A' ∷ byte b'a' ∷ [])
          ∷ to 76 (byte b'E' ∷ byte b'e' ∷ [])
          ∷ to 77 (byte b'I' ∷ byte b'i' ∷ [])
          ∷ [])
        45
    -- yy58
    ∷ mark (to 78 (byte b'O' ∷ byte b'o' ∷ []) ∷ []) 45
    -- yy59
    ∷ mark (to 79 (byte b'A' ∷ byte b'a' ∷ []) ∷ []) 45
    -- yy60
    ∷ mark (to 80 (byte b'O' ∷ byte b'o' ∷ []) ∷ []) 45
    -- yy61
    ∷ read [] 62
    ∷ []
