-- ===== src/Scanner/Reading/Blocks1.antt =====
-- `regex_valid_reading` of src/regex_34401a.c, labels yy1 to yy14.
use lcdpico_34401a.Common.{List, [], ◌∷◌, false}
use lcdpico_34401a.Scanner.Machine.{Block, byte, give, look, mark, range, read, rewind, skip, to}

unfoldable pub reading_blocks_1 : List Block
reading_blocks_1 =
    -- yy1
    skip 2
    -- yy2
    ∷ give false
    -- yy3
    ∷ mark (to 7 (byte b' ' ∷ []) ∷ to 9 (range b'0' b'9' ∷ []) ∷ to 10 (byte b'O' ∷ []) ∷ []) 2
    -- yy4
    ∷ mark (to 11 (byte b' ' ∷ []) ∷ to 9 (range b'0' b'9' ∷ []) ∷ []) 2
    -- yy5
    ∷ mark
        (to 13 (
            byte b' '
            ∷ byte b'A'
            ∷ byte b'D'
            ∷ range b'G' b'H'
            ∷ byte b'K'
            ∷ byte b'M'
            ∷ byte b'O'
            ∷ byte b'S'
            ∷ range b'U' b'V'
            ∷ byte b'a'
            ∷ byte b'd'
            ∷ range b'g' b'h'
            ∷ byte b'k'
            ∷ byte b'm'
            ∷ byte b'o'
            ∷ byte b's'
            ∷ range b'u' b'v'
            ∷ [])
          ∷ to 14 (byte b'.' ∷ [])
          ∷ to 9 (range b'0' b'9' ∷ [])
          ∷ [])
        2
    -- yy6
    ∷ mark (to 21 (byte b'P' ∷ []) ∷ to 22 (byte b'V' ∷ []) ∷ []) 2
    -- yy7
    ∷ read (to 7 (byte b' ' ∷ []) ∷ to 9 (range b'0' b'9' ∷ []) ∷ to 10 (byte b'O' ∷ []) ∷ []) 8
    -- yy8
    ∷ rewind 2
    -- yy9
    ∷ read
        (to 12 (byte b' ' ∷ [])
          ∷ to 14 (byte b'.' ∷ [])
          ∷ to 9 (range b'0' b'9' ∷ [])
          ∷ to 15 (byte b'A' ∷ byte b'V' ∷ byte b'a' ∷ byte b'v' ∷ [])
          ∷ to 16 (byte b'D' ∷ byte b'd' ∷ [])
          ∷ to 17 (
              byte b'G'
              ∷ byte b'K'
              ∷ byte b'M'
              ∷ byte b'U'
              ∷ byte b'g'
              ∷ byte b'k'
              ∷ byte b'm'
              ∷ byte b'u'
              ∷ [])
          ∷ to 18 (byte b'H' ∷ byte b'h' ∷ [])
          ∷ to 19 (byte b'O' ∷ byte b'o' ∷ [])
          ∷ to 20 (byte b'S' ∷ byte b's' ∷ [])
          ∷ [])
        8
    -- yy10
    ∷ read (to 21 (byte b'P' ∷ []) ∷ to 22 (byte b'V' ∷ []) ∷ []) 8
    -- yy11
    ∷ read (to 11 (byte b' ' ∷ []) ∷ to 9 (range b'0' b'9' ∷ []) ∷ []) 8
    -- yy12
    ∷ read [] 13
    -- yy13
    ∷ look
        (to 12 (byte b' ' ∷ [])
          ∷ to 15 (byte b'A' ∷ byte b'V' ∷ byte b'a' ∷ byte b'v' ∷ [])
          ∷ to 16 (byte b'D' ∷ byte b'd' ∷ [])
          ∷ to 17 (
              byte b'G'
              ∷ byte b'K'
              ∷ byte b'M'
              ∷ byte b'U'
              ∷ byte b'g'
              ∷ byte b'k'
              ∷ byte b'm'
              ∷ byte b'u'
              ∷ [])
          ∷ to 18 (byte b'H' ∷ byte b'h' ∷ [])
          ∷ to 19 (byte b'O' ∷ byte b'o' ∷ [])
          ∷ to 20 (byte b'S' ∷ byte b's' ∷ [])
          ∷ [])
        8
    -- yy14
    ∷ read (to 23 (range b'0' b'9' ∷ []) ∷ []) 8
    ∷ []
