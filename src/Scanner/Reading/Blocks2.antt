-- ===== src/Scanner/Reading/Blocks2.antt =====
-- `regex_valid_reading` of src/regex_34401a.c, labels yy15 to yy31.
use lcdpico_34401a.Common.{List, [], ◌∷◌, true}
use lcdpico_34401a.Scanner.Machine.{Block, byte, give, range, read, to}

unfoldable pub reading_blocks_2 : List Block
reading_blocks_2 =
    -- yy15
    read (to 24 (byte b'A' ∷ byte b'D' ∷ byte b'a' ∷ byte b'd' ∷ []) ∷ []) 8
    -- yy16
    ∷ read (to 25 (byte b'B' ∷ byte b'b' ∷ []) ∷ []) 8
    -- yy17
    ∷ read
        (to 15 (byte b'A' ∷ byte b'V' ∷ byte b'a' ∷ byte b'v' ∷ [])
          ∷ to 16 (byte b'D' ∷ byte b'd' ∷ [])
          ∷ to 18 (byte b'H' ∷ byte b'h' ∷ [])
          ∷ to 19 (byte b'O' ∷ byte b'o' ∷ [])
          ∷ to 20 (byte b'S' ∷ byte b's' ∷ [])
          ∷ [])
        8
    -- yy18
    ∷ read (to 25 (byte b'Z' ∷ byte b'z' ∷ []) ∷ []) 8
    -- yy19
    ∷ read (to 27 (byte b'H' ∷ byte b'h' ∷ []) ∷ []) 8
    -- yy20
    ∷ read (to 24 (byte b'E' ∷ byte b'e' ∷ []) ∷ []) 8
    -- yy21
    ∷ read (to 28 (byte b'E' ∷ []) ∷ []) 8
    -- yy22
    ∷ read (to 29 (byte b'L' ∷ []) ∷ []) 8
    -- yy23
    ∷ read
        (to 12 (byte b' ' ∷ [])
          ∷ to 23 (range b'0' b'9' ∷ [])
          ∷ to 15 (byte b'A' ∷ byte b'V' ∷ byte b'a' ∷ byte b'v' ∷ [])
          ∷ to 16 (byte b'D' ∷ byte b'd' ∷ [])
          ∷ to 17 (
              byte b'G'
              ∷ byte b'K'
              ∷ byte b'M'
              ∷ byte b'U'
              ∷ byte b'g'
              ∷ byte b'k'
              ∷ byte b'm'
              ∷ byte b'u'
              ∷ [])
          ∷ to 18 (byte b'H' ∷ byte b'h' ∷ [])
          ∷ to 19 (byte b'O' ∷ byte b'o' ∷ [])
          ∷ to 20 (byte b'S' ∷ byte b's' ∷ [])
          ∷ [])
        8
    -- yy24
    ∷ read (to 25 (byte b'C' ∷ byte b'c' ∷ []) ∷ []) 8
    -- yy25
    ∷ read (to 25 (byte b' ' ∷ []) ∷ []) 26
    -- yy26
    ∷ give true
    -- yy27
    ∷ read (to 25 (byte b'M' ∷ byte b'm' ∷ []) ∷ []) 8
    -- yy28
    ∷ read (to 30 (byte b'N' ∷ []) ∷ []) 8
    -- yy29
    ∷ read (to 32 (byte b'.' ∷ []) ∷ []) 8
    -- yy30
    ∷ read (to 30 (byte b' ' ∷ []) ∷ []) 31
    -- yy31
    ∷ give true
    ∷ []
