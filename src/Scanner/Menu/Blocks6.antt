-- ===== src/Scanner/Menu/Blocks6.antt =====
-- `regex_in_menu` of src/regex_34401a.c, labels yy142 to yy147.
use lcdpico_34401a.Common.{List, [], ◌∷◌}
use lcdpico_34401a.Scanner.Machine.{Block, byte, read, to}

unfoldable pub menu_blocks_6 : List Block
menu_blocks_6 =
    -- yy142
    read (to 146 (byte b'N' ∷ byte b'n' ∷ []) ∷ []) 63
    -- yy143
    ∷ read (to 108 (byte b'M' ∷ byte b'm' ∷ []) ∷ []) 63
    -- yy144
    ∷ read (to 108 (byte b'D' ∷ byte b'd' ∷ []) ∷ []) 63
    -- yy145
    ∷ read (to 147 (byte b'N' ∷ byte b'n' ∷ []) ∷ []) 63
    -- yy146
    ∷ read (to 108 (byte b'U' ∷ byte b'u' ∷ []) ∷ []) 63
    -- yy147
    ∷ read (to 108 (byte b'T' ∷ byte b't' ∷ []) ∷ []) 63
    ∷ []
