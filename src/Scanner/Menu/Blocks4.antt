-- ===== src/Scanner/Menu/Blocks4.antt =====
-- `regex_in_menu` of src/regex_34401a.c, labels yy101 to yy121.
use lcdpico_34401a.Common.{List, [], ◌∷◌, true}
use lcdpico_34401a.Scanner.Machine.{Block, byte, give, read, to}

unfoldable pub menu_blocks_4 : List Block
menu_blocks_4 =
    -- yy101
    read (to 112 (byte b'M' ∷ byte b'm' ∷ []) ∷ []) 63
    -- yy102
    ∷ read (to 113 (byte b'O' ∷ byte b'o' ∷ []) ∷ []) 63
    -- yy103
    ∷ read (to 114 (byte b'E' ∷ byte b'e' ∷ []) ∷ []) 63
    -- yy104
    ∷ read (to 115 (byte b'N' ∷ byte b'n' ∷ []) ∷ []) 63
    -- yy105
    ∷ read (to 116 (byte b'N' ∷ byte b'n' ∷ []) ∷ []) 63
    -- yy106
    ∷ read (to 117 (byte b'A' ∷ byte b'a' ∷ []) ∷ []) 63
    -- yy107
    ∷ read (to 118 (byte b'B' ∷ byte b'b' ∷ []) ∷ []) 63
    -- yy108
    ∷ read (to 108 (byte b' ' ∷ []) ∷ []) 109
    -- yy109
    ∷ give true
    -- yy110
    ∷ read (to 119 (byte b'N' ∷ byte b'n' ∷ []) ∷ []) 63
    -- yy111
    ∷ read (to 120 (byte b'E' ∷ byte b'e' ∷ []) ∷ []) 63
    -- yy112
    ∷ read (to 121 (byte b'E' ∷ byte b'e' ∷ []) ∷ []) 63
    -- yy113
    ∷ read (to 122 (byte b'F' ∷ byte b'f' ∷ []) ∷ []) 63
    -- yy114
    ∷ read (to 123 (byte b' ' ∷ []) ∷ []) 63
    -- yy115
    ∷ read (to 124 (byte b'D' ∷ byte b'd' ∷ []) ∷ []) 63
    -- yy116
    ∷ read (to 122 (byte b'G' ∷ byte b'g' ∷ []) ∷ []) 63
    -- yy117
    ∷ read (to 125 (byte b'L' ∷ byte b'l' ∷ []) ∷ []) 63
    -- yy118
    ∷ read (to 126 (byte b'O' ∷ byte b'o' ∷ []) ∷ []) 63
    -- yy119
    ∷ read (to 127 (byte b'T' ∷ byte b't' ∷ []) ∷ []) 63
    -- yy120
    ∷ read (to 128 (byte b'L' ∷ byte b'l' ∷ []) ∷ []) 63
    -- yy121
    ∷ read (to 129 (byte b'T' ∷ byte b't' ∷ []) ∷ []) 63
    ∷ []
