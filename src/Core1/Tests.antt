-- ===== src/Core1/Tests.antt =====
-- The theorems on the second core at concrete inputs.
use lcdpico_34401a.Common.{
  ℕ, ◌+◌, ◌-◌, ◌≤◌, ◌≡◌, refl, arith, Bool, true, false, List, [], ◌∷◌, ◌++◌, replicate, drop, not,
  ◌==◌, ◌||◌, if◌then◌else◌,
}
use lcdpico_34401a.Decoder.State.{SniffByte, Sniff, Context}
use lcdpico_34401a.Decoder.Process.{Clock, process}
use lcdpico_34401a.Decoder.Fifo.{contents}
use lcdpico_34401a.Decoder.Drain.{stamped}
use lcdpico_34401a.Decoder.Frames.Kinds.{kind_of}
use lcdpico_34401a.Decoder.Text.{glyph, glyphs, cell, line_of}
use lcdpico_34401a.Decoder.Message.{isprint}
use lcdpico_34401a.Decoder.Text.Whole.{inputs_of}
use lcdpico_34401a.Decoder.Scanned.{firmware}
use lcdpico_34401a.Decoder.Tests.{idle, between_frames, pair, eof}
use lcdpico_34401a.Decoder.ScanTests.{volts_codes, volts-HasPrefix, volts_clean}
use lcdpico_34401a.Screen.Cells.{cells_of}
use lcdpico_34401a.Screen.Cells.Text.{is_mark, marks, used, spelled_all}
use lcdpico_34401a.Screen.Update.Shows.{ShowsAt}
use lcdpico_34401a.Screen.Task.{display_status}
use lcdpico_34401a.Screen.Tests.{boot, dark-InStep}
use lcdpico_34401a.Core1.{call_of, Core1, Round, Images, core1_round, core1_gpio_callback, rst_pin}
use lcdpico_34401a.Core1.Timely.{core1_round-timely}
use lcdpico_34401a.Core1.Steps.{Core1IsValid, round, interrupt, rest, then_step, Steps-IsValid}
use lcdpico_34401a.Core1.Reading.{IsReadingFrame}
use lcdpico_34401a.Core1.Meter.{core1_round-reading}

-- The frame of "1.5 VDC" waits.
abbrev wire : List SniffByte
wire =
    pair 0 0
    ∷ pair 0x7f 0
    ∷ pair b'1' 0
    ∷ pair 0x84 0
    ∷ pair b'5' 0
    ∷ pair b' ' 0
    ∷ pair b'V' 0
    ∷ pair b'D' 0
    ∷ pair b'C' 0
    ∷ eof
    ∷ []

abbrev loaded : Context
loaded =
    let s : Sniff = idle.sniff in
    record idle { sniff = record s { fifo_wr = 10; byte_fifo = wire ++ replicate 246 (pair 0 0) } }

abbrev ticking : Clock
ticking = record {
  start_us = 0;
  window_us = 0;
  any_us = λ n. 256 - n;
  event_us = λ n. 256 - n;
  stop_us = 20;
}

abbrev a_round : Round Bool
a_round = record {
  config_now = 400;
  cfg = true;
  config_mutex = true;
  state_now = 401;
  state_mutex = false;
  decoder = ticking;
  display_now = 402;
  display_active = true;
  message_now = 403;
  ann_now = 404;
  cells = λ i. 100000 + i;
  delta = 900;
  after = 405;
}

abbrev at_images : Images
at_images = record { characters = 1000000; lights = 2000000 }

abbrev core : Core1 Bool
core = record {
  dmm = loaded;
  lcm_int_count = 0;
  ctp_int_count = 0;
  task = boot;
  config = false;
  transfer = record { dmm = idle; disp = [] };
  t_config = 300;
  t_state = 300;
  t_display = 300;
  dmm_last = 0;
}

core-IsValid : Core1IsValid at_images core
core-IsValid = record {
  dmm_valid = omega arith;
  task_valid = record { in_step = dark-InStep; cur_long = refl; disp_long = refl };
}

one_mark : marks (line_of (inputs_of ((3, pair b'1' 0) ∷ volts_codes))) ≤ 3
unfolding marks is_mark line_of glyphs glyph cell isprint
one_mark = omega arith

wire-IsReadingFrame :
    IsReadingFrame
      (stamped ticking 256 (contents loaded.sniff))
      (line_of (inputs_of ((3, pair b'1' 0) ∷ volts_codes)))
unfolding kind_of
wire-IsReadingFrame = record {
  t0 = 1;
  t1 = 2;
  t2 = 10;
  b = pair 0 0;
  c = pair 0x7f 0;
  e = eof;
  x = (3, pair b'1' 0);
  xs = volts_codes;
  shape = refl;
  spells = refl;
  b_opens = refl;
  b_no_button = refl;
  c_opens = refl;
  is_message = refl;
  has_room = omega arith;
  goes_on = (refl, (refl, (refl, (refl, (refl, (refl, (refl, tt)))))));
  ends = refl;
  is_clean = volts_clean;
  is_reading = volts-HasPrefix;
  few_marks = one_mark;
}

core1_round-reading_example :
    let line : List ℕ = line_of (inputs_of ((3, pair b'1' 0) ∷ volts_codes)) in
    let c' : Core1 Bool = core1_round firmware at_images a_round core in
    (c'.dmm.sniff.fifo_rd ≡ c'.dmm.sniff.fifo_wr)
    × (c'.dmm.display.main ≡ line)
    × ShowsAt 1000000 a_round.cells c'.task.memory c'.task.lcd.misa (cells_of c'.dmm.display)
    × (spelled_all (cells_of c'.dmm.display) ++ drop (used line 12 0) line ≡ line)
core1_round-reading_example =
    core1_round-reading at_images a_round core
      (line_of (inputs_of ((3, pair b'1' 0) ∷ volts_codes))) core-IsValid refl refl refl
      between_frames refl wire-IsReadingFrame

core1_round-timely_example :
    let c' : Core1 Bool = core1_round firmware at_images a_round core in
    let ctx : Context = process firmware ticking loaded in
    let news : Bool = not (ctx.display.new_data_counter == 0) in
    (c'.dmm ≡ ctx)
    × (c'.task ≡ (
        if false || news
        then display_status true news
            (call_of at_images a_round)
            403
            404
            ctx.display
            ctx.message
            boot
        else boot))
    × (c'.t_display ≡ (if false || news then 405 else 300))
    × (c'.dmm_last ≡ ctx.display.new_data_counter)
    × (402 ≤ c'.t_display + 250000)
core1_round-timely_example = core1_round-timely firmware at_images a_round core (omega arith)

Steps-IsValid_example :
    Core1IsValid at_images
      (core1_gpio_callback (rst_pin 500) (core1_round firmware at_images a_round core))
Steps-IsValid_example =
    Steps-IsValid {rx = firmware} at_images
      (then_step (then_step (rest core) (round a_round core))
        (interrupt (rst_pin 500) (core1_round firmware at_images a_round core)))
      core-IsValid
