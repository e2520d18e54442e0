-- ===== src/Scanner/Menu/Blocks2.antt =====
-- `regex_in_menu` of src/regex_34401a.c, labels yy62 to yy79.
use lcdpico_34401a.Common.{List, [], ◌∷◌}
use lcdpico_34401a.Scanner.Machine.{Block, byte, look, read, rewind, to}

unfoldable pub menu_blocks_2 : List Block
menu_blocks_2 =
    -- yy62
    look
      (to 61 (byte b' ' ∷ [])
        ∷ to 64 (byte b'C' ∷ byte b'c' ∷ [])
        ∷ to 65 (byte b'E' ∷ byte b'e' ∷ [])
        ∷ to 66 (byte b'M' ∷ byte b'm' ∷ [])
        ∷ to 67 (byte b'N' ∷ byte b'n' ∷ [])
        ∷ to 68 (byte b'P' ∷ byte b'p' ∷ [])
        ∷ to 69 (byte b'T' ∷ byte b't' ∷ [])
        ∷ [])
      63
    -- yy63
    ∷ rewind 45
    -- yy64
    ∷ read (to 72 (byte b'H' ∷ byte b'h' ∷ []) ∷ to 73 (byte b'O' ∷ byte b'o' ∷ []) ∷ []) 63
    -- yy65
    ∷ read (to 74 (byte b'X' ∷ byte b'x' ∷ []) ∷ []) 63
    -- yy66
    ∷ read
        (to 75 (byte b'A' ∷ byte b'a' ∷ [])
          ∷ to 76 (byte b'E' ∷ byte b'e' ∷ [])
          ∷ to 77 (byte b'I' ∷ byte b'i' ∷ [])
          ∷ [])
        63
    -- yy67
    ∷ read (to 78 (byte b'O' ∷ byte b'o' ∷ []) ∷ []) 63
    -- yy68
    ∷ read (to 79 (byte b'A' ∷ byte b'a' ∷ []) ∷ []) 63
    -- yy69
    ∷ read (to 80 (byte b'O' ∷ byte b'o' ∷ []) ∷ []) 63
    -- yy70
    ∷ read (to 81 (byte b' ' ∷ []) ∷ []) 63
    -- yy71
    ∷ read (to 82 (byte b' ' ∷ []) ∷ []) 63
    -- yy72
    ∷ read (to 83 (byte b'A' ∷ byte b'a' ∷ []) ∷ []) 63
    -- yy73
    ∷ read (to 84 (byte b'M' ∷ byte b'm' ∷ []) ∷ []) 63
    -- yy74
    ∷ read (to 85 (byte b'I' ∷ byte b'i' ∷ []) ∷ []) 63
    -- yy75
    ∷ read (to 86 (byte b'X' ∷ byte b'x' ∷ []) ∷ []) 63
    -- yy76
    ∷ read (to 87 (byte b'N' ∷ byte b'n' ∷ []) ∷ []) 63
    -- yy77
    ∷ read (to 86 (byte b'N' ∷ byte b'n' ∷ []) ∷ []) 63
    -- yy78
    ∷ read (to 88 (byte b'T' ∷ byte b't' ∷ []) ∷ []) 63
    -- yy79
    ∷ read (to 89 (byte b'R' ∷ byte b'r' ∷ []) ∷ []) 63
    ∷ []
