-- ===== src/Scanner/Reading/Blocks3.antt =====
-- `regex_valid_reading` of src/regex_34401a.c, labels yy32 to yy42.
use lcdpico_34401a.Common.{List, [], ◌∷◌}
use lcdpico_34401a.Scanner.Machine.{Block, byte, read, to}

unfoldable pub reading_blocks_3 : List Block
reading_blocks_3 =
    -- yy32
    read (to 33 (byte b'D' ∷ []) ∷ []) 8
    -- yy33
    ∷ read (to 34 (byte b' ' ∷ []) ∷ []) 8
    -- yy34
    ∷ read
        (to 34 (byte b' ' ∷ [])
          ∷ to 35 (byte b'A' ∷ byte b'V' ∷ byte b'a' ∷ byte b'v' ∷ [])
          ∷ to 36 (byte b'D' ∷ byte b'd' ∷ [])
          ∷ to 37 (
              byte b'G'
              ∷ byte b'K'
              ∷ byte b'M'
              ∷ byte b'U'
              ∷ byte b'g'
              ∷ byte b'k'
              ∷ byte b'm'
              ∷ byte b'u'
              ∷ [])
          ∷ to 38 (byte b'H' ∷ byte b'h' ∷ [])
          ∷ to 39 (byte b'O' ∷ byte b'o' ∷ [])
          ∷ to 40 (byte b'S' ∷ byte b's' ∷ [])
          ∷ [])
        8
    -- yy35
    ∷ read (to 41 (byte b'A' ∷ byte b'D' ∷ byte b'a' ∷ byte b'd' ∷ []) ∷ []) 8
    -- yy36
    ∷ read (to 30 (byte b'B' ∷ byte b'b' ∷ []) ∷ []) 8
    -- yy37
    ∷ read
        (to 35 (byte b'A' ∷ byte b'V' ∷ byte b'a' ∷ byte b'v' ∷ [])
          ∷ to 36 (byte b'D' ∷ byte b'd' ∷ [])
          ∷ to 38 (byte b'H' ∷ byte b'h' ∷ [])
          ∷ to 39 (byte b'O' ∷ byte b'o' ∷ [])
          ∷ to 40 (byte b'S' ∷ byte b's' ∷ [])
          ∷ [])
        8
    -- yy38
    ∷ read (to 30 (byte b'Z' ∷ byte b'z' ∷ []) ∷ []) 8
    -- yy39
    ∷ read (to 42 (byte b'H' ∷ byte b'h' ∷ []) ∷ []) 8
    -- yy40
    ∷ read (to 41 (byte b'E' ∷ byte b'e' ∷ []) ∷ []) 8
    -- yy41
    ∷ read (to 30 (byte b'C' ∷ byte b'c' ∷ []) ∷ []) 8
    -- yy42
    ∷ read (to 30 (byte b'M' ∷ byte b'm' ∷ []) ∷ []) 8
    ∷ []
