-- ===== src/Decoder/Publish.antt =====
-- What a finished frame, a reset or a quiet shift window changes on the display.
use lcdpico_34401a.Common.{
  ℕ, ◌*◌, ◌^◌, true, false, not, List, [], ◌∷◌, get_or, ltb, ◌==◌, if◌then◌else◌, Option, none,
  some, bit_and, bit_or, bit_xor, sub32, inc32,
}
use lcdpico_34401a.Decoder.State.{Display, Sniff, Frame, Shift, Message, Context}

-- Bit 11 of the annunciators, kept by the decoder itself.
abbrev pub ann_shift : ℕ
ann_shift = 0x0800

-- 300 ms
abbrev pub shift_window_us : ℕ
shift_window_us = 300000

-- `processShiftWindow`, with the timer's reading.
unfoldable pub process_shift_window : ℕ → Context → Context
process_shift_window now ctx =
    let w : Shift = ctx.shift in
    let d : Display = ctx.display in
    let toggled : Display = record d {
      ann_state = bit_xor d.ann_state ann_shift;
      new_data_counter = inc32 d.new_data_counter;
      ann_counter = inc32 d.ann_counter;
    } in
    if not w.shift_window_active
    then ctx
    else if ltb shift_window_us (sub32 now w.shift_window_start_us)
    then record ctx {
      display = if bit_and w.shift_press_count 1 == 0 then d else toggled;
      shift = record w { shift_press_count = 0; shift_window_active = false };
    }
    else ctx

-- `publishAnnunciators`
unfoldable pub publish_annunciators : ℕ → ℕ → Display → Display
publish_annunciators h l d =
    let state : ℕ = bit_or (h * 256) l in
    let new_state : ℕ = bit_or (bit_and state 0xf7ff) (bit_and d.ann_state ann_shift) in
    if not (new_state == d.ann_state)
    then record d {
      ann_state = new_state;
      new_data_counter = inc32 d.new_data_counter;
      ann_counter = inc32 d.ann_counter;
    }
    else d

-- The position that a control command makes blink.
unfoldable pub control_position : ℕ → Option ℕ
control_position cmd =
    if cmd == 0x0049
    then some 0
    else if cmd == 0x7149
    then some 1
    else if cmd == 0x6249
    then some 2
    else if cmd == 0x1349
    then some 3
    else if cmd == 0x5449
    then some 4
    else if cmd == 0x2549
    then some 5
    else if cmd == 0x3649
    then some 6
    else if cmd == 0x4749
    then some 7
    else if cmd == 0x3849
    then some 8
    else if cmd == 0x4949
    then some 9
    else if cmd == 0x5a49
    then some 10
    else if cmd == 0x2b49
    then some 11
    else none

unfoldable pub set_blink : Option ℕ → Display → Display
set_blink none d = d
set_blink (some k) d = record d {
  blink_mask = 2 ^ k;
  new_data_counter = inc32 d.new_data_counter;
  main_counter = inc32 d.main_counter;
}

-- `decodeControlFrame`
unfoldable pub decode_control : Frame → Display → Display
decode_control f d =
    let cmd : ℕ = bit_or (get_or f.input_buf 0 0 * 256) (get_or f.input_buf 1 0) in
    if ltb f.buf_len 2 then d else set_blink (control_position cmd) d

-- "SYSTEM RESET  ", which `strncpy` fills up with zeros.
abbrev pub reset_line : List ℕ
reset_line =
    b'S' ∷ b'Y' ∷ b'S' ∷ b'T' ∷ b'E' ∷ b'M' ∷ b' ' ∷ b'R' ∷ b'E' ∷ b'S' ∷ b'E' ∷ b'T' ∷ b' ' ∷ b' '
    ∷ 0 ∷ 0 ∷ []

-- `process_reset`
unfoldable pub process_reset : Context → Context
process_reset ctx =
    let d : Display = ctx.display in
    let w : Shift = ctx.shift in
    let m : Message = ctx.message in
    let s : Sniff = ctx.sniff in
    record ctx {
      display = record d {
        main = reset_line;
        ann_state = 0;
        blink_mask = 0;
        ann_counter = inc32 d.ann_counter;
        new_data_counter = inc32 d.new_data_counter;
        main_counter = inc32 d.main_counter;
      };
      shift = record w { shift_press_count = 0; shift_window_active = false };
      message = record m {
        msg_work_need_reset = true;
        corrupt_msg = false;
        menu_msg = false;
        valid_reading = false;
      };
      sniff = record s { reset_received = false };
    }
