-- ===== src/Decoder/Process/Finish.antt =====
-- `decoder34401_process`: the kinds of frames, and the end of a message frame.
use lcdpico_34401a.Common.{
  ℕ, ◌-◌, Bool, true, ◌&&◌, List, get_or, ltb, leb, ◌==◌, if◌then◌else◌, bit_and, sub32, inc32,
}
use lcdpico_34401a.Decoder.State.{
  FrameState, frame_unknown, frame_message, frame_annunciators, frame_control, frame_button,
  Display, Debug, Frame, Message, Context,
}
use lcdpico_34401a.Decoder.Message.{update_bar}
use lcdpico_34401a.Decoder.Publish.{}

-- The three scanners of src/regex_34401a.c, over the NUL-terminated line.
pub record Scanners : Type 0 where
  pub valid_reading : List ℕ → Bool
  pub in_menu : List ℕ → Bool
  pub text_display : List ℕ → Bool

-- `lastBytesAreEof`
unfoldable pub last_bytes_are_eof : Frame → Bool
last_bytes_are_eof f =
    ltb 0 f.buf_len
    && get_or f.input_buf (f.buf_len - 1) 0 == 0x00
    && get_or f.output_buf (f.buf_len - 1) 0 == 0xbb

-- `endFrame`
unfoldable pub end_frame : Frame → Frame
end_frame f = record f { buf_len = 0; frame_state = frame_unknown }

unfoldable pub enter : FrameState → Frame → Frame
enter s f = record f { frame_state = s }

-- FRAME_UNKNOWN: the first bytes tell what kind of frame this is.
unfoldable pub classify : Frame → Frame
classify f =
    let in0 : ℕ = get_or f.input_buf 0 0 in
    let in1 : ℕ = get_or f.input_buf 1 0 in
    let out0 : ℕ = get_or f.output_buf 0 0 in
    if f.buf_len == 1 && in0 == 0x00 && out0 == 0x77
    then enter frame_button f
    else if leb 2 f.buf_len
    then (if in0 == 0x00 && bit_and in1 0x7f == 0x7f
        then enter frame_message f
        else if bit_and in0 0x7f == 0x7f && in1 == 0x00
        then enter frame_annunciators f
        else enter frame_control f)
    else f

-- The verdict on a finished line. The line is corrupt if no scanner knows it.
unfoldable pub judge : Scanners → Message → Message
judge rx m =
    if m.corrupt_msg
    then m
    else if rx.valid_reading m.msg_work
    then record m { valid_reading = true }
    else if rx.in_menu m.msg_work
    then record m { menu_msg = true }
    else if rx.text_display m.msg_work
    then m
    else record m { corrupt_msg = true }

unfoldable pub publish_line : Message → Display → Display
publish_line m d = record d {
  main = m.msg_work;
  last_reading = if m.valid_reading then m.msg_work else d.last_reading;
  blink_mask = m.msg_blink_work;
  new_data_counter = inc32 d.new_data_counter;
  main_counter = inc32 d.main_counter;
}

unfoldable pub note_bad_line : ℕ → Message → Debug → Debug
note_bad_line now m d =
    if m.corrupt_msg
    then record d { bad_msg_last_time = now; bad_msg_count = inc32 d.bad_msg_count }
    else d

unfoldable pub note_main_gap : ℕ → Debug → Debug
note_main_gap now d =
    let gap : ℕ = sub32 now d.main_last_time in
    let timed : Debug = record d {
      main_gap_us = gap;
      main_gap_us_max = if ltb d.main_gap_us_max gap then gap else d.main_gap_us_max;
    } in
    let d' : Debug = if ltb 0 d.main_last_time then timed else d in
    record d' { main_last_time = now }

-- The end of a message frame.
unfoldable pub finish_message : Scanners → ℕ → Context → Context
finish_message rx now ctx =
    let judged : Message = judge rx ctx.message in
    record ctx {
      message = record judged { msg_work_need_reset = true };
      display = update_bar ctx.frame (publish_line judged ctx.display);
      debug = note_main_gap now (note_bad_line now judged ctx.debug);
      frame = end_frame ctx.frame;
    }
