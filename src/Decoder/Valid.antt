-- ===== src/Decoder/Valid.antt =====
-- The representation invariant of `dmm_context_t`: every index stays inside its array, the lines
-- of text stay NUL-terminated, and the words keep their widths.
pub mod Edges
pub mod Lines
pub mod Rounds
pub mod Runs
use lcdpico_34401a.Common.{ℕ, ◌≤◌, ◌<◌, ◌≡◌, length, get_or}
use lcdpico_34401a.Common.Int.{abs}
use lcdpico_34401a.Decoder.State.{Display, Sniff, Frame, Shift, Message, Context}

pub record SniffIsValid (s : Sniff) : Type 0 where
  pub in_byte : s.input_acc < 256
  pub out_byte : s.output_acc < 256
  pub cells : length s.byte_fifo ≡ 256
  pub wr_in : s.fifo_wr < 256
  pub rd_in : s.fifo_rd < 256

-- `buf_len` leaves room for the next byte.
pub record FrameIsValid (f : Frame) : Type 0 where
  pub inputs : length f.input_buf ≡ 100
  pub outputs : length f.output_buf ≡ 100
  pub room : f.buf_len < 100

pub record MessageIsValid (m : Message) : Type 0 where
  pub idx : m.msg_idx ≤ 15
  pub line : length m.msg_work ≡ 16
  pub terminated : get_or m.msg_work 15 1 ≡ 0
  pub blink : m.msg_blink_work < 65536

pub record DisplayIsValid (d : Display) : Type 0 where
  pub main_line : length d.main ≡ 16
  pub main_terminated : get_or d.main 15 1 ≡ 0
  pub reading_line : length d.last_reading ≡ 16
  pub reading_terminated : get_or d.last_reading 15 1 ≡ 0
  pub annunciators : d.ann_state < 65536
  pub bar_fits : abs d.bar ≤ 9999
  pub blink : d.blink_mask < 65536

pub record IsValid (ctx : Context) : Type 0 where
  pub display : DisplayIsValid ctx.display
  pub sniff : SniffIsValid ctx.sniff
  pub bits : ctx.sniff.byte_len < 8
  pub frame : FrameIsValid ctx.frame
  pub message : MessageIsValid ctx.message
  pub presses : ctx.shift.shift_press_count < 256

-- The parts that no interrupt handler writes are the same.
abbrev pub SameParse : Context → Context → Type 0
SameParse ctx ctx' =
    (ctx'.display ≡ ctx.display)
    × (ctx'.frame ≡ ctx.frame)
    × (ctx'.shift ≡ ctx.shift)
    × (ctx'.message ≡ ctx.message)
