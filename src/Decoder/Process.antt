-- ===== src/Decoder/Process.antt =====
-- `decoder34401_process`: the frame automaton, run over the bytes of the FIFO.
mod Finish
use lcdpico_34401a.Common.{
  ℕ, zero, suc, ◌+◌, ◌-◌, ◌*◌, Bool, true, false, not, ◌&&◌, ◌||◌, List, get_or, set, ltb, leb,
  ◌==◌, if◌then◌else◌, bit_and, bit_or, sub32, inc8, inc32,
}
use lcdpico_34401a.Decoder.State.{
  byte_fifo_mask, frame_buf_len, SniffByte, FrameState, frame_init, frame_unknown, frame_message,
  frame_annunciators, frame_control, frame_button, Display, Debug, Sniff, Frame, Shift, Message,
  Context,
}
use lcdpico_34401a.Decoder.Message.{message_byte, update_bar}
use lcdpico_34401a.Decoder.Publish.{
  ann_shift, process_shift_window, publish_annunciators, decode_control, process_reset,
}
unfoldable pub use Finish.*

-- The 24-bit code of a button frame; this one is SHIFT's.
abbrev pub shift_code : ℕ
shift_code = 7839183

unfoldable pub button_code : Frame → ℕ
button_code f =
    bit_or (bit_or (get_or f.output_buf 0 0 * 65536) (get_or f.output_buf 1 0 * 256))
      (get_or f.output_buf 2 0)

-- A press of SHIFT opens the window, or is counted in it and extends it.
unfoldable pub press_shift : ℕ → Shift → Shift
press_shift now w =
    if not w.shift_window_active
    then record w { shift_window_active = true; shift_window_start_us = now; shift_press_count = 1 }
    else record w { shift_press_count = inc8 w.shift_press_count; shift_window_start_us = now }

-- Any other button takes SHIFT back.
unfoldable pub clear_shift : Display → Display
clear_shift d =
    if not (bit_and d.ann_state ann_shift == 0)
    then record d {
      ann_state = bit_and d.ann_state 0xf7ff;
      new_data_counter = inc32 d.new_data_counter;
      ann_counter = inc32 d.ann_counter;
    }
    else d

unfoldable pub press_button : ℕ → Context → Context
press_button now ctx =
    let w : Shift = ctx.shift in
    if button_code ctx.frame == shift_code
    then record ctx { shift = press_shift now w }
    else record ctx {
      shift = record w { shift_window_active = false; shift_press_count = 0 };
      display = clear_shift ctx.display;
    }

unfoldable pub on_button : ℕ → Context → Context
on_button now ctx =
    let f : Frame = ctx.frame in
    let pressed : Context = if leb 3 f.buf_len then press_button now ctx else ctx in
    if leb 1 f.buf_len && get_or f.input_buf (f.buf_len - 1) 0 == 0x66
    then record pressed { frame = end_frame f }
    else ctx

unfoldable pub on_annunciators : Context → Context
on_annunciators ctx =
    let f : Frame = ctx.frame in
    record ctx {
      display =
          if leb 4 f.buf_len
          then publish_annunciators (get_or f.input_buf 3 0) (get_or f.input_buf 2 0) ctx.display
          else ctx.display;
      frame = end_frame f;
    }

-- The `switch` for a byte that ends the frame.
unfoldable pub at_eof : Scanners → ℕ → FrameState → Context → Context
at_eof rx now frame_init ctx = record ctx { frame = end_frame ctx.frame }
at_eof rx now frame_unknown ctx = record ctx { frame = end_frame ctx.frame }
at_eof rx now frame_message ctx = finish_message rx now ctx
at_eof rx now frame_annunciators ctx = on_annunciators ctx
at_eof rx now frame_control ctx = record ctx {
  display = decode_control ctx.frame ctx.display;
  frame = end_frame ctx.frame;
}
at_eof rx now frame_button ctx = record ctx { frame = end_frame ctx.frame }

-- The `switch` for any other byte.
unfoldable pub in_frame : ℕ → FrameState → Context → Context
in_frame now frame_init ctx = ctx
in_frame now frame_unknown ctx = record ctx { frame = classify ctx.frame }
in_frame now frame_message ctx = record ctx {
  message = message_byte ctx.message (get_or ctx.frame.input_buf (ctx.frame.buf_len - 1) 0);
}
in_frame now frame_annunciators ctx = ctx
in_frame now frame_control ctx = ctx
in_frame now frame_button ctx = on_button now ctx

unfoldable pub dispatch : Scanners → ℕ → Context → Context
dispatch rx now ctx =
    if last_bytes_are_eof ctx.frame
    then at_eof rx now ctx.frame.frame_state ctx
    else in_frame now ctx.frame.frame_state ctx

-- Takes the oldest byte pair off the FIFO.
unfoldable pub fifo_take : Sniff → Sniff
fifo_take s = record s { fifo_rd = bit_and (s.fifo_rd + 1) byte_fifo_mask }

unfoldable pub fifo_head : Sniff → SniffByte
fifo_head s = get_or s.byte_fifo s.fifo_rd (record { input = 0; output = 0 })

unfoldable pub note_any_gap : ℕ → Debug → Debug
note_any_gap now d =
    let gap : ℕ = sub32 now d.any_last_time in
    let timed : Debug = record d {
      any_gap_us = gap;
      any_gap_us_max = if ltb d.any_gap_us_max gap then gap else d.any_gap_us_max;
    } in
    let d' : Debug = if ltb 0 d.any_last_time then timed else d in record d' { any_last_time = now }

-- "consume byte"
unfoldable pub store_byte : SniffByte → Frame → Frame
store_byte b f = record f {
  input_buf = set f.input_buf f.buf_len b.input;
  output_buf = set f.output_buf f.buf_len b.output;
  buf_len = inc8 f.buf_len;
}

-- A frame that fills the buffers is given up.
unfoldable pub guard_overflow : Context → Context
guard_overflow ctx =
    let d : Debug = ctx.debug in
    if leb frame_buf_len ctx.frame.buf_len
    then record ctx {
      frame = end_frame ctx.frame;
      debug = record d { buf_overflow_count = inc32 d.buf_overflow_count };
    }
    else ctx

-- One byte pair goes into the frame, and the automaton steps.
unfoldable pub accept : Scanners → ℕ → SniffByte → Context → Context
accept rx event_us b ctx =
    guard_overflow (dispatch rx event_us (record ctx { frame = store_byte b ctx.frame }))

-- The loop's body behind the test for a reset. The timer is read once for each byte, and once
-- more where a line or a press ends.
unfoldable pub consume : Scanners → ℕ → ℕ → Context → Context
unfolding accept
consume rx any_us event_us ctx =
    accept rx event_us (fifo_head ctx.sniff)
      (record ctx { sniff = fifo_take ctx.sniff; debug = note_any_gap any_us ctx.debug })

-- The readings of the timer during one call.
pub record Clock : Type 0 where
  pub start_us : ℕ
  pub window_us : ℕ
  pub any_us : ℕ → ℕ
  pub event_us : ℕ → ℕ
  pub stop_us : ℕ

unfoldable pub has_work : Sniff → Bool
has_work s = not (s.fifo_rd == s.fifo_wr) || s.reset_received

-- The `while`, for at most `fuel` rounds. A reset is handled between two bytes, and ends it.
unfoldable pub loop : Scanners → Clock → ℕ → Context → Context
loop rx clock zero ctx = ctx
loop rx clock (suc fuel) ctx =
    let rest = loop rx clock fuel (consume rx (clock.any_us fuel) (clock.event_us fuel) ctx) in
    if has_work ctx.sniff
    then (if ctx.sniff.reset_received then process_reset ctx else rest)
    else ctx

unfoldable pub note_process_time : Clock → Context → Context
note_process_time clock ctx =
    let d : Debug = ctx.debug in
    let time : ℕ = sub32 clock.stop_us clock.start_us in
    if ltb d.max_process_us time
    then record ctx { debug = record d { max_process_us = time } }
    else ctx

-- `decoder34401_process`, with no interrupt during it: the FIFO holds at most 255 bytes, so 256
-- rounds reach the end of the loop.
unfoldable pub process : Scanners → Clock → Context → Context
process rx clock ctx =
    note_process_time clock (loop rx clock 256 (process_shift_window clock.window_us ctx))
