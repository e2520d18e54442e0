-- ===== src/Decoder/Tests.antt =====
-- The decoder's theorems at concrete inputs, and runs of the decoder.
use lcdpico_34401a.Common.{
  ℕ, ◌≡◌, refl, arith, Bool, true, false, not, ◌&&◌, List, [], ◌∷◌, ◌++◌, replicate, if◌then◌else◌,
}
use lcdpico_34401a.Decoder.State.{SniffByte, frame_unknown, Sniff, Frame, Context, init}
use lcdpico_34401a.Decoder.Edge.{Edge, fifo_append}
use lcdpico_34401a.Decoder.Message.{isprint}
use lcdpico_34401a.Decoder.Process.{Scanners, Clock, fifo_head, fifo_take, accept, process}
use lcdpico_34401a.Decoder.Publish.{process_shift_window}
use lcdpico_34401a.Decoder.Valid.{SameParse}
use lcdpico_34401a.Decoder.Fifo.{level, contents}
use lcdpico_34401a.Decoder.Fifo.Queue.{fifo_refines}
use lcdpico_34401a.Decoder.Frames.{accept-eof, accept_all}
use lcdpico_34401a.Decoder.Frames.Kinds.{IsIdle, kind_of}
use lcdpico_34401a.Decoder.Text.{glyph, glyphs, cell, line_of, is_corrupt}
use lcdpico_34401a.Decoder.Text.Whole.{inputs_of, message_frame}
use lcdpico_34401a.Decoder.Drain.{StartsOver, checked, process_drains, process_reset_first}

-- Scanners that take every line for a reading.
abbrev pub all_readings : Scanners
all_readings = record { valid_reading = λ s. true; in_menu = λ s. false; text_display = λ s. false }

abbrev pub pair : ℕ → ℕ → SniffByte
pair i o = record { input = i; output = o }

abbrev pub eof : SniffByte
eof = pair 0x00 0xbb

-- The decoder between two frames.
abbrev pub idle : Context
idle =
    let f : Frame = init.frame in record init { frame = record f { frame_state = frame_unknown } }

abbrev pub between_frames : IsIdle idle.frame
between_frames = record { valid = omega arith; unknown = refl; empty = refl }

-- One byte pair waits.
abbrev waiting : Context
waiting =
    let s : Sniff = idle.sniff in
    record idle { sniff = record s { fifo_wr = 1; byte_fifo = eof ∷ replicate 255 (pair 0 0) } }

abbrev steady : Clock
steady = record {
  start_us = 10;
  window_us = 11;
  any_us = λ n. 12;
  event_us = λ n. 13;
  stop_us = 14;
}

-- An edge at time `t` on which both pins read `b`.
abbrev edge : ℕ → Bool → Edge
edge t b = record {
  now_us = t;
  end_us = t;
  do_samples = replicate 15 b;
  di_samples = replicate 15 b;
}

abbrev seven_edges : List Edge
seven_edges =
    edge 2 false
    ∷ edge 3 false
    ∷ edge 4 false
    ∷ edge 5 false
    ∷ edge 6 false
    ∷ edge 7 false
    ∷ edge 8 true
    ∷ []

abbrev two_codes : List (ℕ × SniffByte)
two_codes = (3, pair b'1' 0) ∷ (4, pair 0x84 0) ∷ (5, pair b'5' 0) ∷ []

message_frame_example :
    let codes : List ℕ = inputs_of two_codes in
    let ctx' : Context =
      accept_all all_readings
        ((1, pair 0 0) ∷ (2, pair 0x7f 0) ∷ (two_codes ++ ((6, eof) ∷ [])))
        idle in
    (ctx'.display.main ≡ line_of codes)
    × (ctx'.display.last_reading
        ≡ (if not (is_corrupt codes) && true then line_of codes else replicate 16 0))
    × (ctx'.message.msg_work_need_reset ≡ true)
    × (ctx'.frame.frame_state ≡ frame_unknown)
    × (ctx'.frame.buf_len ≡ 0)
unfolding kind_of
message_frame_example =
    message_frame all_readings idle 1 2 6 (pair 0 0) (pair 0x7f 0) eof (3, pair b'1' 0)
      ((4, pair 0x84 0) ∷ (5, pair b'5' 0) ∷ []) between_frames refl refl refl refl refl
      (omega arith) (refl, (refl, (refl, tt))) refl

-- "1.5" and spaces.
line_of_reading :
    line_of (b'1' ∷ 0x84 ∷ b'5' ∷ []) ≡ b'1' ∷ b'.' ∷ b'5' ∷ (replicate 11 32 ++ 0 ∷ 0 ∷ [])
unfolding line_of glyphs glyph cell isprint
line_of_reading = refl

fifo_refines_example :
    (contents (fifo_append waiting).sniff ≡ eof ∷ pair 0 0 ∷ [])
    × ((fifo_append waiting).debug.byte_overrun_count ≡ 0)
    × ((fifo_append waiting).debug.fifo_level ≡ level (fifo_append waiting).sniff)
    × (eof ∷ [] ≡ fifo_head waiting.sniff ∷ contents (fifo_take waiting.sniff))
fifo_refines_example = fifo_refines waiting waiting.sniff (omega arith) (omega arith) (omega arith)

accept-eof_example :
    ((accept all_readings 1 eof init).frame.frame_state ≡ frame_unknown)
    × ((accept all_readings 1 eof init).frame.buf_len ≡ 0)
accept-eof_example = accept-eof all_readings 1 eof init (omega arith) refl

process_drains_example :
    ((process all_readings steady waiting).sniff.fifo_rd ≡ 1)
    × ((process all_readings steady waiting).sniff.fifo_wr ≡ 1)
    × SameParse
        (accept_all all_readings ((13, eof) ∷ []) (checked steady waiting))
        (process all_readings steady waiting)
process_drains_example = process_drains all_readings steady waiting (omega arith) refl

-- A reset that is pending goes first.
abbrev reset_pending : Context
reset_pending =
    let s : Sniff = waiting.sniff in record waiting { sniff = record s { reset_received = true } }

process_reset_first_example :
    ((process all_readings steady reset_pending).sniff ≡ waiting.sniff)
    × StartsOver reset_pending (process all_readings steady reset_pending)
unfolding process_shift_window
process_reset_first_example = process_reset_first all_readings steady reset_pending refl
