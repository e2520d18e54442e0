-- ===== src/Decoder/Valid/Rounds.antt =====
-- A round of the loop keeps the invariant, and so does a whole call.
use lcdpico_34401a.Common.{
  ℕ, zero, suc, ◌+◌, ◌-◌, ◌<◌, ◌≤◌, ◌≡◌, arith, length, get_or, length-set, and_byte, bit_and-le,
}
use lcdpico_34401a.Decoder.State.{
  FrameState, frame_init, frame_unknown, frame_message, frame_annunciators, frame_control,
  frame_button, Display, Message, Context,
}
use lcdpico_34401a.Decoder.Process.{
  Scanners, Clock, end_frame, classify, enter, judge, publish_line, finish_message, press_shift,
  clear_shift, press_button, on_button, on_annunciators, at_eof, in_frame, dispatch, fifo_take,
  fifo_head, note_any_gap, store_byte, guard_overflow, consume, loop, note_process_time, process,
}
use lcdpico_34401a.Decoder.Valid.{IsValid, SniffIsValid, MessageIsValid, DisplayIsValid}
use lcdpico_34401a.Decoder.Valid.Lines.{
  message_byte-MessageIsValid, update_bar-DisplayIsValid, publish_annunciators-DisplayIsValid,
  decode_control-DisplayIsValid, process_reset-IsValid, process_shift_window-IsValid,
}

-- Inside a round the frame holds one byte more than between two.
record InRound (ctx : Context) : Type 0 where
  display : DisplayIsValid ctx.display
  sniff : SniffIsValid ctx.sniff
  bits : ctx.sniff.byte_len < 8
  inputs : length ctx.frame.input_buf ≡ 100
  outputs : length ctx.frame.output_buf ≡ 100
  room : ctx.frame.buf_len ≤ 100
  message : MessageIsValid ctx.message
  presses : ctx.shift.shift_press_count < 256

finish_message-InRound :
    (rx : Scanners) (now : ℕ) (ctx : Context) → InRound ctx → InRound (finish_message rx now ctx)
unfolding finish_message end_frame
finish_message-InRound rx now ctx v =
    let judged = judge-MessageIsValid rx ctx.message v.message in
    record {
      display =
          update_bar-DisplayIsValid ctx.frame (publish_line (judge rx ctx.message) ctx.display)
            (publish_line-DisplayIsValid (judge rx ctx.message) ctx.display judged v.display);
      sniff = v.sniff;
      bits = v.bits;
      inputs = v.inputs;
      outputs = v.outputs;
      room = omega arith;
      message = ground arith;
      presses = v.presses;
    }
  where
    judge-MessageIsValid :
        (rx : Scanners) (m : Message) → MessageIsValid m → MessageIsValid (judge rx m)
    judge-MessageIsValid rx m v = unfold judge in ground arith

    publish_line-DisplayIsValid :
        (m : Message) (d : Display)
        → MessageIsValid m
        → DisplayIsValid d
        → DisplayIsValid (publish_line m d)
    publish_line-DisplayIsValid m d v w = unfold publish_line in ground arith

on_button-InRound : (now : ℕ) (ctx : Context) → InRound ctx → InRound (on_button now ctx)
unfolding on_button press_button press_shift clear_shift end_frame
on_button-InRound now ctx v = ground (arith, bit_and-le ctx.display.ann_state 0xf7ff)

at_eof-InRound :
    (rx : Scanners) (now : ℕ) (s : FrameState) (ctx : Context)
    → InRound ctx
    → InRound (at_eof rx now s ctx)
unfolding at_eof end_frame on_annunciators
at_eof-InRound rx now frame_init ctx v = ground arith
at_eof-InRound rx now frame_unknown ctx v = ground arith
at_eof-InRound rx now frame_message ctx v = finish_message-InRound rx now ctx v
at_eof-InRound rx now frame_annunciators ctx v = ground (
  arith,
  publish_annunciators-DisplayIsValid (get_or ctx.frame.input_buf 3 0)
      (get_or ctx.frame.input_buf 2 0) ctx.display v.display,
)
at_eof-InRound rx now frame_control ctx v =
    ground (arith, decode_control-DisplayIsValid ctx.frame ctx.display v.display)
at_eof-InRound rx now frame_button ctx v = ground arith

in_frame-InRound :
    (now : ℕ) (s : FrameState) (ctx : Context) → InRound ctx → InRound (in_frame now s ctx)
unfolding in_frame classify enter
in_frame-InRound now frame_init ctx v = v
in_frame-InRound now frame_unknown ctx v = ground arith
in_frame-InRound now frame_message ctx v = ground (
  arith,
  message_byte-MessageIsValid ctx.message (get_or ctx.frame.input_buf (ctx.frame.buf_len - 1) 0)
      v.message,
)
in_frame-InRound now frame_annunciators ctx v = v
in_frame-InRound now frame_control ctx v = v
in_frame-InRound now frame_button ctx v = on_button-InRound now ctx v

dispatch-InRound :
    (rx : Scanners) (now : ℕ) (ctx : Context) → InRound ctx → InRound (dispatch rx now ctx)
unfolding dispatch
dispatch-InRound rx now ctx v = ground (
  arith,
  at_eof-InRound rx now ctx.frame.frame_state ctx v,
  in_frame-InRound now ctx.frame.frame_state ctx v,
)

guard_overflow-IsValid : (ctx : Context) → InRound ctx → IsValid (guard_overflow ctx)
unfolding guard_overflow end_frame
guard_overflow-IsValid ctx v = ground arith

-- A round keeps the invariant: it reads inside the FIFO and writes inside the frame buffers.
pub consume-IsValid :
    (rx : Scanners) (any_us event_us : ℕ) (ctx : Context)
    → IsValid ctx
    → IsValid (consume rx any_us event_us ctx)
unfolding consume
consume-IsValid rx any_us event_us ctx v =
    guard_overflow-IsValid _ (dispatch-InRound rx event_us _ taken)
  where
    taken : InRound (record ctx {
      sniff = fifo_take ctx.sniff;
      debug = note_any_gap any_us ctx.debug;
      frame = store_byte (fifo_head ctx.sniff) ctx.frame;
    })
    taken =
        unfold fifo_take store_byte in
        ground (
          arith,
          and_byte (ctx.sniff.fifo_rd + 1),
          length-set ctx.frame.input_buf ctx.frame.buf_len (fifo_head ctx.sniff).input,
          length-set ctx.frame.output_buf ctx.frame.buf_len (fifo_head ctx.sniff).output,
        )

pub loop-IsValid :
    (rx : Scanners) (clock : Clock) (fuel : ℕ) (ctx : Context)
    → IsValid ctx
    → IsValid (loop rx clock fuel ctx)
unfolding loop
loop-IsValid rx clock zero ctx v = v
loop-IsValid rx clock (suc fuel) ctx v = ground (
  arith,
  process_reset-IsValid ctx v,
  loop-IsValid rx clock fuel (consume rx (clock.any_us fuel) (clock.event_us fuel) ctx)
      (consume-IsValid rx (clock.any_us fuel) (clock.event_us fuel) ctx v),
)

note_process_time-IsValid :
    (clock : Clock) (ctx : Context) → IsValid ctx → IsValid (note_process_time clock ctx)
unfolding note_process_time
note_process_time-IsValid clock ctx v = ground arith

-- One call of the decoder keeps the invariant.
pub process-IsValid :
    (rx : Scanners) (clock : Clock) (ctx : Context) → IsValid ctx → IsValid (process rx clock ctx)
unfolding process
process-IsValid rx clock ctx v =
    note_process_time-IsValid clock _
      (loop-IsValid rx clock 256 _ (process_shift_window-IsValid clock.window_us ctx v))
