-- ===== src/Scanner/Menu/Blocks5.antt =====
-- `regex_in_menu` of src/regex_34401a.c, labels yy122 to yy141.
use lcdpico_34401a.Common.{List, [], ◌∷◌}
use lcdpico_34401a.Scanner.Machine.{Block, byte, read, to}

unfoldable pub menu_blocks_5 : List Block
menu_blocks_5 =
    -- yy122
    read (to 130 (byte b' ' ∷ []) ∷ []) 63
    -- yy123
    ∷ read (to 131 (byte b'S' ∷ byte b's' ∷ []) ∷ []) 63
    -- yy124
    ∷ read (to 108 (byte b'S' ∷ byte b's' ∷ []) ∷ []) 63
    -- yy125
    ∷ read (to 132 (byte b'U' ∷ byte b'u' ∷ []) ∷ []) 63
    -- yy126
    ∷ read (to 133 (byte b'T' ∷ byte b't' ∷ []) ∷ []) 63
    -- yy127
    ∷ read (to 134 (byte b'E' ∷ byte b'e' ∷ []) ∷ []) 63
    -- yy128
    ∷ read (to 135 (byte b'E' ∷ byte b'e' ∷ []) ∷ []) 63
    -- yy129
    ∷ read (to 136 (byte b'E' ∷ byte b'e' ∷ []) ∷ []) 63
    -- yy130
    ∷ read (to 137 (byte b'M' ∷ byte b'm' ∷ []) ∷ []) 63
    -- yy131
    ∷ read (to 138 (byte b'A' ∷ byte b'a' ∷ []) ∷ []) 63
    -- yy132
    ∷ read (to 108 (byte b'E' ∷ byte b'e' ∷ []) ∷ []) 63
    -- yy133
    ∷ read (to 139 (byte b'T' ∷ byte b't' ∷ []) ∷ []) 63
    -- yy134
    ∷ read (to 140 (byte b'R' ∷ byte b'r' ∷ []) ∷ []) 63
    -- yy135
    ∷ read (to 141 (byte b'V' ∷ byte b'v' ∷ []) ∷ []) 63
    -- yy136
    ∷ read (to 108 (byte b'R' ∷ byte b'r' ∷ []) ∷ []) 63
    -- yy137
    ∷ read (to 142 (byte b'E' ∷ byte b'e' ∷ []) ∷ []) 63
    -- yy138
    ∷ read (to 140 (byte b'V' ∷ byte b'v' ∷ []) ∷ []) 63
    -- yy139
    ∷ read (to 143 (byte b'O' ∷ byte b'o' ∷ []) ∷ []) 63
    -- yy140
    ∷ read (to 144 (byte b'E' ∷ byte b'e' ∷ []) ∷ []) 63
    -- yy141
    ∷ read (to 145 (byte b'A' ∷ byte b'a' ∷ []) ∷ []) 63
    ∷ []
