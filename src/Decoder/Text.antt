-- ===== src/Decoder/Text.antt =====
-- The line that a message frame spells: a description of `messageByte` without its state.
pub mod Line
pub mod Spelled
pub mod Whole
use lcdpico_34401a.Common.{
  ℕ, zero, suc, ◌+◌, Bool, true, false, not, ◌||◌, List, [], ◌∷◌, ◌++◌, map, take, drop, length,
  set, ltb, ◌==◌, if◌then◌else◌,
}
use lcdpico_34401a.Decoder.State.{blank_line, Message}
use lcdpico_34401a.Decoder.Message.{isprint, message_byte}

-- The character that a code of the front panel shows, if it shows one.
unfoldable pub glyph : ℕ → List ℕ
glyph b =
    if b == 0x84
    then b'.' ∷ []
    else if b == 0x86
    then b',' ∷ []
    else if b == 0x8d
    then b':' ∷ []
    else if b == 0x8c
    then b':' ∷ []
    else if b == 0x81
    then []
    else if b == 0x00
    then []
    else b ∷ []

unfoldable pub glyphs : List ℕ → List ℕ
glyphs [] = []
glyphs (b ∷ bs) = glyph b ++ glyphs bs

-- A character that cannot be printed leaves a space.
unfoldable pub cell : ℕ → ℕ
cell c = if isprint c then c else 32

-- A line shows the first fifteen characters; spaces, and the zeros at its end, make up the rest.
unfoldable pub line_of : List ℕ → List ℕ
line_of codes =
    let shown : List ℕ = take 15 (map cell (glyphs codes)) in
    shown ++ drop (length shown) blank_line

unfoldable pub has_unprintable : List ℕ → Bool
has_unprintable [] = false
has_unprintable (c ∷ cs) = not (isprint c) || has_unprintable cs

-- A line is corrupt if one of its characters cannot be printed.
unfoldable pub is_corrupt : List ℕ → Bool
is_corrupt codes = has_unprintable (take 15 (glyphs codes))

-- The bytes of a message, one after the other.
unfoldable pub message_bytes : List ℕ → Message → Message
message_bytes [] m = m
message_bytes (b ∷ bs) m = message_bytes bs (message_byte m b)
