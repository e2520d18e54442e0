-- ===== src/Scanner/Menu/Blocks3.antt =====
-- `regex_in_menu` of src/regex_34401a.c, labels yy80 to yy100.
use lcdpico_34401a.Common.{List, [], ◌∷◌, true}
use lcdpico_34401a.Scanner.Machine.{Block, byte, give, range, read, to}

unfoldable pub menu_blocks_3 : List Block
menu_blocks_3 =
    -- yy80
    read (to 90 (byte b'P' ∷ byte b'p' ∷ []) ∷ []) 63
    -- yy81
    ∷ read (to 91 (byte b' ' ∷ range b'/' b'a' ∷ []) ∷ []) 63
    -- yy82
    ∷ read (to 93 (byte b' ' ∷ range b'/' b'a' ∷ []) ∷ []) 63
    -- yy83
    ∷ read (to 95 (byte b'N' ∷ byte b'n' ∷ []) ∷ []) 63
    -- yy84
    ∷ read (to 96 (byte b'M' ∷ byte b'm' ∷ []) ∷ []) 63
    -- yy85
    ∷ read (to 97 (byte b'T' ∷ byte b't' ∷ []) ∷ []) 63
    -- yy86
    ∷ read (to 98 (byte b' ' ∷ []) ∷ []) 63
    -- yy87
    ∷ read (to 99 (byte b'U' ∷ byte b'u' ∷ []) ∷ []) 63
    -- yy88
    ∷ read (to 100 (byte b' ' ∷ []) ∷ []) 63
    -- yy89
    ∷ read (to 101 (byte b'A' ∷ byte b'a' ∷ []) ∷ []) 63
    -- yy90
    ∷ read (to 102 (byte b' ' ∷ []) ∷ []) 63
    -- yy91
    ∷ read (to 91 (byte b' ' ∷ range b'/' b'a' ∷ []) ∷ []) 92
    -- yy92
    ∷ give true
    -- yy93
    ∷ read (to 93 (byte b' ' ∷ range b'/' b'a' ∷ []) ∷ []) 94
    -- yy94
    ∷ give true
    -- yy95
    ∷ read (to 103 (byte b'G' ∷ byte b'g' ∷ []) ∷ []) 63
    -- yy96
    ∷ read (to 104 (byte b'A' ∷ byte b'a' ∷ []) ∷ []) 63
    -- yy97
    ∷ read (to 105 (byte b'I' ∷ byte b'i' ∷ []) ∷ []) 63
    -- yy98
    ∷ read (to 106 (byte b'V' ∷ byte b'v' ∷ []) ∷ []) 63
    -- yy99
    ∷ read (to 107 (byte b' ' ∷ []) ∷ to 108 (byte b'S' ∷ byte b's' ∷ []) ∷ []) 63
    -- yy100
    ∷ read (to 110 (byte b'E' ∷ byte b'e' ∷ []) ∷ to 111 (byte b'R' ∷ byte b'r' ∷ []) ∷ []) 63
    ∷ []
