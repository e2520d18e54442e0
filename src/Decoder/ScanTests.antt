-- ===== src/Decoder/ScanTests.antt =====
-- The decoder with its scanners, at concrete lines.
use lcdpico_34401a.Common.{ℕ, ◌≡◌, refl, false, List, [], ◌∷◌, ◌++◌, codes, replicate}
use lcdpico_34401a.Util.Copies.{c_string}
use lcdpico_34401a.Scanner.Regex.{HasPrefix, nullable, after_byte}
use lcdpico_34401a.Scanner.Regex.Prefixes.{accepts, expect, next, accepts_iff_HasPrefix}
use lcdpico_34401a.Scanner.Grammar.{
  valid_reading_rules, in_menu_rules, menu_text_in_code, text_display_rules, parameter_in_code,
}
use lcdpico_34401a.Decoder.State.{SniffByte, Message, init}
use lcdpico_34401a.Decoder.Process.{judge}
use lcdpico_34401a.Decoder.Text.{glyph, glyphs, cell, line_of, has_unprintable, is_corrupt}
use lcdpico_34401a.Decoder.Message.{isprint}
use lcdpico_34401a.Decoder.Text.Whole.{inputs_of}
use lcdpico_34401a.Decoder.Scanned.{firmware, Judged, judge-firmware}
use lcdpico_34401a.Decoder.Tests.{pair}

-- "OPEN" and what the buffer holds behind it.
abbrev open_line : Message
open_line = let m : Message = init.message in record m { msg_work = codes "OPEN" ++ replicate 12 0 }

judge-firmware_example :
    Judged open_line
      (judge firmware open_line)
      (HasPrefix valid_reading_rules (codes "OPEN"))
      (HasPrefix (in_menu_rules menu_text_in_code) (codes "OPEN"))
      (HasPrefix (text_display_rules parameter_in_code) (codes "OPEN"))
judge-firmware_example =
    judge-firmware open_line
      (record { is_clean = refl; no_reading = refl; no_menu = refl; has_bytes = refl })

-- "1.5 VDC" as the meter sends it.
abbrev pub volts_codes : List (ℕ × SniffByte)
volts_codes =
    (4, pair 0x84 0)
    ∷ (5, pair b'5' 0)
    ∷ (6, pair b' ' 0)
    ∷ (7, pair b'V' 0)
    ∷ (8, pair b'D' 0)
    ∷ (9, pair b'C' 0)
    ∷ []

volts_line :
    c_string (line_of (inputs_of ((3, pair b'1' 0) ∷ volts_codes)))
    ≡ b'1' ∷ b'.' ∷ (codes "5 VDC" ++ replicate 7 32)
unfolding line_of glyphs glyph cell isprint
volts_line = refl

pub volts-HasPrefix :
    HasPrefix valid_reading_rules (c_string (line_of (inputs_of ((3, pair b'1' 0) ∷ volts_codes))))
unfolding line_of glyphs glyph cell isprint accepts expect next nullable after_byte
volts-HasPrefix =
    (accepts_iff_HasPrefix valid_reading_rules
        (c_string (line_of (inputs_of ((3, pair b'1' 0) ∷ volts_codes))))).0
      refl

pub volts_clean : is_corrupt (inputs_of ((3, pair b'1' 0) ∷ volts_codes)) ≡ false
unfolding is_corrupt glyphs glyph isprint has_unprintable
volts_clean = refl
