-- ===== src/Core1.antt =====
-- The second core of the firmware, src/lcd-pico.c: its interrupt handler and its loop, which hands
-- the decoder's lines to the display task.
pub mod Timely
pub mod Steps
pub mod Reading
pub mod Meter
pub mod Tests
use lcdpico_34401a.Common.{
  ℕ, ◌+◌, ◌*◌, Bool, true, false, not, ◌&&◌, ◌||◌, List, [], ◌∷◌, ltb, ◌==◌, if◌then◌else◌, inc32,
}
use lcdpico_34401a.Decoder.State.{Display, Context}
use lcdpico_34401a.Decoder.Edge.{Edge, sckedge, reset, int}
use lcdpico_34401a.Decoder.Process.{Scanners, Clock, process}
use lcdpico_34401a.Screen.Update.{Call}
use lcdpico_34401a.Screen.Status.{Status}
use lcdpico_34401a.Screen.Task.{Task, display_status}

-- `time_passed` of src/util_rp2.c, for a timer that is not null: the answer, and the timer. Times
-- are in microseconds since the start.
unfoldable pub time_passed : ℕ → ℕ → ℕ → Bool × ℕ
time_passed t ms now = if t == 0 || ltb (t + ms * 1000) now then (true, now) else (false, t)

-- What `transfer_state` takes over for the other core.
pub record Snapshot : Type 0 where
  pub dmm : Context
  pub disp : List ℕ

-- The state of the second core: `core1_state`, `core1_config`, the display task, `transfer_state`
-- and the variables of `core1_main`. The configuration is of any type.
pub record Core1 (C : Type 0) : Type 0 where
  pub dmm : Context
  pub lcm_int_count : ℕ
  pub ctp_int_count : ℕ
  pub task : Task
  pub config : C
  pub transfer : Snapshot
  pub t_config : ℕ
  pub t_state : ℕ
  pub t_display : ℕ
  pub dmm_last : ℕ

-- What one round reads from outside: the timer, the other core's configuration, whether each mutex
-- is free in time, whether the display is active, and what the display task reads.
pub record Round (C : Type 0) : Type 0 where
  pub config_now : ℕ
  pub cfg : C
  pub config_mutex : Bool
  pub state_now : ℕ
  pub state_mutex : Bool
  pub decoder : Clock
  pub display_now : ℕ
  pub display_active : Bool
  pub message_now : ℕ
  pub ann_now : ℕ
  pub cells : ℕ → ℕ
  pub delta : ℕ
  pub after : ℕ

-- The addresses of the images in video memory.
pub record Images : Type 0 where
  pub characters : ℕ
  pub lights : ℕ

abbrev pub call_of : {C : Type 0} → Images → Round C → Call
call_of images r = record {
  characters = images.characters;
  lights = images.lights;
  clock = r.cells;
  delta = r.delta;
}

unfoldable pub update_config : {C : Type 0} → Round C → Core1 C → Core1 C
unfolding time_passed
update_config r c =
    let passed : Bool × ℕ = time_passed c.t_config 1000 r.config_now in
    record c {
      t_config = passed.1;
      config = if passed.0 && r.config_mutex then r.cfg else c.config;
    }

unfoldable pub update_state : {C : Type 0} → Round C → Core1 C → Core1 C
unfolding time_passed
update_state r c =
    let passed : Bool × ℕ = time_passed c.t_state 500 r.state_now in
    let taken : Snapshot = record { dmm = c.dmm; disp = c.task.status.shown_txt } in
    record c {
      t_state = passed.1;
      transfer = if passed.0 && r.state_mutex then taken else c.transfer;
    }

unfoldable pub decode : {C : Type 0} → Scanners → Round C → Core1 C → Core1 C
decode rx r c = record c { dmm = process rx r.decoder c.dmm }

-- `state->dmm.new_data_counter != dmm_last`
abbrev pub has_news : {C : Type 0} → Core1 C → Bool
has_news c = not (c.dmm.display.new_data_counter == c.dmm_last)

unfoldable pub refresh_display : {C : Type 0} → Images → Round C → Core1 C → Core1 C
unfolding time_passed
refresh_display images r c =
    let passed : Bool × ℕ = time_passed c.t_display 250 r.display_now in
    let shown : Task =
      display_status r.display_active (has_news c) (call_of images r) r.message_now r.ann_now
        c.dmm.display c.dmm.message c.task in
    if passed.0 || has_news c
    then record c { task = shown; dmm_last = c.dmm.display.new_data_counter; t_display = r.after }
    else record c { t_display = passed.1 }

-- One round of the loop of `core1_main`. The log is left out.
unfoldable pub core1_round : {C : Type 0} → Scanners → Images → Round C → Core1 C → Core1 C
core1_round rx images r c =
    refresh_display images r (decode rx r (update_state r (update_config r c)))

-- The pins of `core1_gpio_callback`, with what the handlers read.
pub data Interrupt : Type 0 where
  sck_pin : Edge → Interrupt
  rst_pin : ℕ → Interrupt
  int_pin : ℕ → Interrupt
  lcm_int_pin : Interrupt
  ctp_int_pin : Interrupt

unfoldable pub core1_gpio_callback : {C : Type 0} → Interrupt → Core1 C → Core1 C
core1_gpio_callback (sck_pin e) c = record c { dmm = sckedge e c.dmm }
core1_gpio_callback (rst_pin now) c = record c { dmm = reset now c.dmm }
core1_gpio_callback (int_pin now) c = record c { dmm = int now c.dmm }
core1_gpio_callback lcm_int_pin c = record c { lcm_int_count = inc32 c.lcm_int_count }
core1_gpio_callback ctp_int_pin c = record c { ctp_int_count = inc32 c.ctp_int_count }
