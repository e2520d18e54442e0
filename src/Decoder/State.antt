-- ===== src/Decoder/State.antt =====
-- `dmm_context_t` of src/decoder_34401a.h. Its fields stand in six records, one for each comment
-- block of the struct; the frame buffers and the message assembly are two of them.
use lcdpico_34401a.Common.{ℕ, Bool, true, false, List, [], ◌∷◌, ◌++◌, replicate}
use lcdpico_34401a.Common.Int.{ℤ, pos}

abbrev pub display_buf_len : ℕ
display_buf_len = 16

abbrev pub byte_fifo_size : ℕ
byte_fifo_size = 256

abbrev pub byte_fifo_mask : ℕ
byte_fifo_mask = 255

abbrev pub max_sck_delay_us : ℕ
max_sck_delay_us = 1500

-- `sizeof(ctx->input_buf)`
abbrev pub frame_buf_len : ℕ
frame_buf_len = 100

pub record SniffByte : Type 0 where
  pub input : ℕ
  pub output : ℕ

pub data FrameState : Type 0 where
  frame_init frame_unknown frame_message frame_annunciators frame_control frame_button : FrameState

-- What the display task reads.
pub record Display : Type 0 where
  pub main : List ℕ
  pub last_reading : List ℕ
  pub ann_state : ℕ
  pub bar : ℤ
  pub bar_style : ℕ
  pub new_data_counter : ℕ
  pub main_counter : ℕ
  pub ann_counter : ℕ
  pub bar_counter : ℕ
  pub blink_mask : ℕ

-- The `dbg_` fields.
pub record Debug : Type 0 where
  pub byte_overrun_count : ℕ
  pub buf_overflow_count : ℕ
  pub mid_byte_gap_count : ℕ
  pub mid_byte_gap_bits : ℕ
  pub mid_byte_gap_input : ℕ
  pub mid_byte_gap_output : ℕ
  pub mid_byte_gap_last_time : ℕ
  pub mid_byte_gap_last_us : ℕ
  pub mid_byte_gap_max_us : ℕ
  pub di_noise_count : ℕ
  pub do_noise_count : ℕ
  pub int_len_us : ℕ
  pub reset_count : ℕ
  pub int_count : ℕ
  pub sck_count : ℕ
  pub bad_msg_count : ℕ
  pub bad_msg_last_time : ℕ
  pub reset_last_time : ℕ
  pub int_last_time : ℕ
  pub sck_gap_us : ℕ
  pub sck_gap_us_max : ℕ
  pub main_gap_us : ℕ
  pub main_gap_us_max : ℕ
  pub main_last_time : ℕ
  pub any_gap_us : ℕ
  pub any_gap_us_max : ℕ
  pub any_last_time : ℕ
  pub fifo_level_max : ℕ
  pub fifo_level : ℕ
  pub max_process_us : ℕ

-- What the interrupt handlers write.
pub record Sniff : Type 0 where
  pub byte_len : ℕ
  pub input_acc : ℕ
  pub output_acc : ℕ
  pub byte_fifo : List SniffByte
  pub fifo_wr : ℕ
  pub fifo_rd : ℕ
  pub last_us : ℕ
  pub reset_received : Bool

pub record Frame : Type 0 where
  pub input_buf : List ℕ
  pub output_buf : List ℕ
  pub buf_len : ℕ
  pub frame_state : FrameState

pub record Shift : Type 0 where
  pub shift_window_start_us : ℕ
  pub shift_press_count : ℕ
  pub shift_window_active : Bool

pub record Message : Type 0 where
  pub msg_idx : ℕ
  pub msg_work_need_reset : Bool
  pub corrupt_msg : Bool
  pub menu_msg : Bool
  pub valid_reading : Bool
  pub msg_work : List ℕ
  pub msg_blink_work : ℕ

pub record Context : Type 0 where
  pub display : Display
  pub debug : Debug
  pub sniff : Sniff
  pub frame : Frame
  pub shift : Shift
  pub message : Message

-- `memset(…, ' ', DISPLAY_BUF_LEN - 2)` and the two zeros behind it.
abbrev pub blank_line : List ℕ
blank_line = replicate 14 32 ++ 0 ∷ 0 ∷ []

abbrev no_debug : Debug
no_debug = record {
  byte_overrun_count = 0;
  buf_overflow_count = 0;
  mid_byte_gap_count = 0;
  mid_byte_gap_bits = 0;
  mid_byte_gap_input = 0;
  mid_byte_gap_output = 0;
  mid_byte_gap_last_time = 0;
  mid_byte_gap_last_us = 0;
  mid_byte_gap_max_us = 0;
  di_noise_count = 0;
  do_noise_count = 0;
  int_len_us = 0;
  reset_count = 0;
  int_count = 0;
  sck_count = 0;
  bad_msg_count = 0;
  bad_msg_last_time = 0;
  reset_last_time = 0;
  int_last_time = 0;
  sck_gap_us = 0;
  sck_gap_us_max = 0;
  main_gap_us = 0;
  main_gap_us_max = 0;
  main_last_time = 0;
  any_gap_us = 0;
  any_gap_us_max = 0;
  any_last_time = 0;
  fifo_level_max = 0;
  fifo_level = 0;
  max_process_us = 0;
}

-- `decoder34401_init`: the context is cleared, and the line of text and its copy are blanked.
abbrev pub init : Context
init = record {
  display = record {
    main = blank_line;
    last_reading = replicate 16 0;
    ann_state = 0;
    bar = pos 0;
    bar_style = 0;
    new_data_counter = 0;
    main_counter = 0;
    ann_counter = 0;
    bar_counter = 0;
    blink_mask = 0;
  };
  debug = no_debug;
  sniff = record {
    byte_len = 0;
    input_acc = 0;
    output_acc = 0;
    byte_fifo = replicate 256 (record { input = 0; output = 0 });
    fifo_wr = 0;
    fifo_rd = 0;
    last_us = 0;
    reset_received = false;
  };
  frame = record {
    input_buf = replicate 100 0;
    output_buf = replicate 100 0;
    buf_len = 0;
    frame_state = frame_init;
  };
  shift = record { shift_window_start_us = 0; shift_press_count = 0; shift_window_active = false };
  message = record {
    msg_idx = 0;
    msg_work_need_reset = true;
    corrupt_msg = false;
    menu_msg = false;
    valid_reading = false;
    msg_work = blank_line;
    msg_blink_work = 0;
  };
}
