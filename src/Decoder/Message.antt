-- ===== src/Decoder/Message.antt =====
-- The assembly of the line of text, byte by byte, and the bar graph that is read off it.
use lcdpico_34401a.Common.{
  ℕ, zero, suc, ◌+◌, ◌-◌, ◌*◌, ◌^◌, Bool, true, false, not, ◌&&◌, ◌||◌, List, get_or, set, ltb, leb,
  ◌==◌, if◌then◌else◌, bit_or, u16, inc8, inc32,
}
use lcdpico_34401a.Common.Int.{ℤ, pos, neg_of, ◌==ℤ◌}
use lcdpico_34401a.Decoder.State.{display_buf_len, blank_line, Display, Frame, Message}

-- `isprint`, `iscntrl` and `isdigit` of the C locale.
unfoldable pub isprint : ℕ → Bool
isprint c = leb 0x20 c && leb c 0x7e

unfoldable pub iscntrl : ℕ → Bool
iscntrl c = ltb c 0x20 || c == 0x7f

unfoldable pub isdigit : ℕ → Bool
isdigit c = leb b'0' c && leb c b'9'

-- `dmm_putc_safe`. The last cell of the line is never written.
unfoldable pub putc_safe : Message → ℕ → Message
putc_safe m c =
    let stored : Message = record m {
      msg_idx = inc8 m.msg_idx;
      msg_work = set m.msg_work m.msg_idx (if isprint c then c else 32);
    } in
    if leb (display_buf_len - 1) m.msg_idx
    then m
    else if m.corrupt_msg
    then stored
    else if not (isprint c) || iscntrl c
    then record stored { corrupt_msg = true }
    else stored

-- The start of `messageByte`: the line is blanked for the first byte of a message.
unfoldable pub start_line : Message → Message
start_line m =
    if m.msg_work_need_reset
    then record m {
      msg_idx = 0;
      msg_blink_work = 0;
      msg_work = blank_line;
      corrupt_msg = false;
      menu_msg = false;
      valid_reading = false;
      msg_work_need_reset = false;
    }
    else m

-- The previous character blinks.
unfoldable pub mark_blink : Message → Message
mark_blink m =
    if ltb 0 m.msg_idx
    then record m { msg_blink_work = bit_or m.msg_blink_work (u16 (2 ^ (m.msg_idx - 1))) }
    else m

-- The `switch` of `messageByte`.
unfoldable pub put_byte : Message → ℕ → Message
put_byte m byte =
    if byte == 0x84
    then putc_safe m b'.'
    else if byte == 0x86
    then putc_safe m b','
    else if byte == 0x8d
    then putc_safe (mark_blink m) b':'
    else if byte == 0x8c
    then putc_safe m b':'
    else if byte == 0x81
    then m
    else if byte == 0x00
    then m
    else putc_safe m byte

-- `messageByte`
unfoldable pub message_byte : Message → ℕ → Message
message_byte m byte = put_byte (start_line m) byte

-- The loop of `updateBarGraph…` with `left` rounds until `st` is 8: `c` digits are taken, up to
-- `limit` of them. The value has at most four digits, so the casts to int16_t keep it.
unfoldable pub bar_digits : ℕ → ℕ → List ℕ → ℕ → ℕ → ℕ → ℕ
bar_digits limit zero buf st c value = value
bar_digits limit (suc left) buf st c value =
    let found =
      bar_digits limit left buf (st + 1) (c + 1) (10 * value + (get_or buf st 0 - b'0')) in
    let skipped = bar_digits limit left buf (st + 1) c value in
    if ltb c limit then (if isdigit (get_or buf st 0) then found else skipped) else value

-- Style 0 is POSITIVE, 1 is FULLSCALE.
unfoldable pub bar_style_of : List ℕ → ℕ
bar_style_of buf = if isdigit (get_or buf 2 0) then 0 else 1

unfoldable pub bar_value_of : List ℕ → ℤ
unfolding bar_style_of
bar_value_of buf =
    if bar_style_of buf == 0
    then pos (bar_digits 4 6 buf 2 0 0)
    else if get_or buf 2 0 == b'-'
    then neg_of (bar_digits 3 5 buf 3 0 0)
    else pos (bar_digits 3 5 buf 3 0 0)

-- `updateBarGraphFromMessageFrame`
unfoldable pub update_bar : Frame → Display → Display
update_bar f d =
    let style : ℕ = bar_style_of f.input_buf in
    let value : ℤ = bar_value_of f.input_buf in
    if not (d.bar_style == style) || not (d.bar ==ℤ value)
    then record d {
      bar_style = style;
      bar = value;
      new_data_counter = inc32 d.new_data_counter;
      bar_counter = inc32 d.bar_counter;
    }
    else d
