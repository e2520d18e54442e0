-- ===== src/Core1/Steps.antt =====
-- The loop's rounds and the interrupts, in any order: what stays true of the second core.
use lcdpico_34401a.Common.{ℕ, ◌≡◌, arith, Bool, true, false, ◌||◌, Bool-cases, inl, inr, length}
use lcdpico_34401a.Decoder.State.{Display, Message}
use lcdpico_34401a.Decoder.Process.{Scanners}
use lcdpico_34401a.Decoder.Valid.{IsValid}
use lcdpico_34401a.Decoder.Valid.Edges.{sckedge-IsValid, reset-IsValid, int-IsValid}
use lcdpico_34401a.Decoder.Valid.Rounds.{process-IsValid}
use lcdpico_34401a.Screen.Status.{
  Status, show, poll, is_due, lay_out, note_menu, menu_changed, release, note_annunciators,
  note_blink, take_message,
}
use lcdpico_34401a.Screen.Update.{Call}
use lcdpico_34401a.Screen.Update.Shows.{InStep}
use lcdpico_34401a.Screen.Update.Frames.{update_display-InStep}
use lcdpico_34401a.Screen.Task.{Task, redraw, display_status, length-cells_of}
use lcdpico_34401a.Core1.{
  Core1, Round, Images, Interrupt, sck_pin, rst_pin, int_pin, lcm_int_pin, ctp_int_pin, call_of,
  time_passed, has_news, update_config, update_state, decode, refresh_display, core1_round,
  core1_gpio_callback,
}

-- The cells that are shown and those that wait are twelve.
abbrev AreLong : Status → Type 0
AreLong s = (length s.cur_disp ≡ 12) × (length s.disp ≡ 12)

AreLong-show : (s : Status) → AreLong s → AreLong (show s)
unfolding show
AreLong-show s h = (h.1, h.1)

AreLong-poll : (now : ℕ) (s : Status) → AreLong s → AreLong (poll now s)
unfolding poll
AreLong-poll now s h = elim (Bool-cases (is_due now s.new_disp_time)) [
  | inl e ↦ rw e (AreLong-show s h)
  | inr e ↦ rw e h
]

AreLong-note_menu : (d : Display) (m : Message) (s : Status) → AreLong s → AreLong (note_menu d m s)
unfolding note_menu
AreLong-note_menu d m s h = elim (Bool-cases (menu_changed d m s)) [
  | inl e ↦ rw e h
  | inr e ↦ rw e h
]

AreLong-release : (d : Display) (m : Message) (s : Status) → AreLong s → AreLong (release d m s)
unfolding release
AreLong-release d m s h =
    let noted = AreLong-note_menu d m s h in
    elim (Bool-cases m.corrupt_msg) [
      | inl e ↦ rw e h
      | inr e ↦ elim (Bool-cases (m.valid_reading || m.menu_msg)) [
        | inl k ↦ rw (e, k) (AreLong-show (note_menu d m s) noted)
        | inr k ↦ rw (e, k) noted
      ]
    ]

AreLong-notes :
    (now : ℕ) (d : Display) (s : Status)
    → AreLong s
    → AreLong (note_blink d (note_annunciators now d s))
unfolding note_blink note_annunciators
AreLong-notes now d s h = ground (arith, h)

AreLong-take_message :
    (now ann_now : ℕ) (d : Display) (m : Message) (s : Status)
    → AreLong s
    → AreLong (take_message now ann_now d m s)
unfolding take_message
AreLong-take_message now ann_now d m s h =
    AreLong-notes ann_now d (release d m (lay_out now d s))
      (AreLong-release d m (lay_out now d s) (h.0, length-cells_of d))

-- The frames agree with the variables that describe them.
pub record TaskIsValid (image : ℕ) (t : Task) : Type 0 where
  pub in_step : InStep image t.memory t.lcd
  pub cur_long : length t.status.cur_disp ≡ 12
  pub disp_long : length t.status.disp ≡ 12

redraw-IsValid :
    (call : Call) (d : Display) (s : Status) (t : Task)
    → InStep call.characters t.memory t.lcd
    → AreLong s
    → TaskIsValid call.characters (redraw call d s t)
unfolding redraw
redraw-IsValid call d s t v h = record {
  in_step = (update_display-InStep call false s.cur_disp d.ann_state t.lcd t.memory h.0 v).0;
  cur_long = h.0;
  disp_long = h.1;
}

display_status-IsValid :
    (active new : Bool) (call : Call) (now ann_now : ℕ) (d : Display) (m : Message) (t : Task)
    → TaskIsValid call.characters t
    → TaskIsValid call.characters (display_status active new call now ann_now d m t)
unfolding display_status
display_status-IsValid false new call now ann_now d m t v = v
display_status-IsValid true true call now ann_now d m t v =
    redraw-IsValid call d (take_message now ann_now d m t.status) t v.in_step
      (AreLong-take_message now ann_now d m t.status (v.cur_long, v.disp_long))
display_status-IsValid true false call now ann_now d m t v =
    redraw-IsValid call d (poll now t.status) t v.in_step
      (AreLong-poll now t.status (v.cur_long, v.disp_long))

-- The decoder's context is valid, and the frames are in step with the variables.
pub record Core1IsValid {C : Type 0} (images : Images) (c : Core1 C) : Type 0 where
  pub dmm_valid : IsValid c.dmm
  pub task_valid : TaskIsValid images.characters c.task

refresh_display-IsValid :
    {C : Type 0} (images : Images) (r : Round C) (c : Core1 C)
    → Core1IsValid images c
    → Core1IsValid images (refresh_display images r c)
unfolding refresh_display
refresh_display-IsValid images r c v =
    let shown =
      display_status-IsValid r.display_active (has_news c) (call_of images r) r.message_now
        r.ann_now c.dmm.display c.dmm.message c.task v.task_valid in
    elim (Bool-cases ((time_passed c.t_display 250 r.display_now).0 || has_news c)) [
      | inl e ↦ rw e (record { dmm_valid = v.dmm_valid; task_valid = shown })
      | inr e ↦ rw e (record { dmm_valid = v.dmm_valid; task_valid = v.task_valid })
    ]

core1_round-IsValid :
    {C : Type 0} (rx : Scanners) (images : Images) (r : Round C) (c : Core1 C)
    → Core1IsValid images c
    → Core1IsValid images (core1_round rx images r c)
unfolding core1_round decode update_state update_config
core1_round-IsValid rx images r c v =
    refresh_display-IsValid images r (decode rx r (update_state r (update_config r c))) (record {
      dmm_valid = process-IsValid rx r.decoder c.dmm v.dmm_valid;
      task_valid = v.task_valid;
    })

core1_gpio_callback-IsValid :
    {C : Type 0} (images : Images) (i : Interrupt) (c : Core1 C)
    → Core1IsValid images c
    → Core1IsValid images (core1_gpio_callback i c)
unfolding core1_gpio_callback
core1_gpio_callback-IsValid images (sck_pin e) c v = record {
  dmm_valid = sckedge-IsValid e c.dmm v.dmm_valid;
  task_valid = v.task_valid;
}
core1_gpio_callback-IsValid images (rst_pin now) c v = record {
  dmm_valid = reset-IsValid now c.dmm v.dmm_valid;
  task_valid = v.task_valid;
}
core1_gpio_callback-IsValid images (int_pin now) c v = record {
  dmm_valid = int-IsValid now c.dmm v.dmm_valid;
  task_valid = v.task_valid;
}
core1_gpio_callback-IsValid images lcm_int_pin c v = record {
  dmm_valid = v.dmm_valid;
  task_valid = v.task_valid;
}
core1_gpio_callback-IsValid images ctp_int_pin c v = record {
  dmm_valid = v.dmm_valid;
  task_valid = v.task_valid;
}

-- A step of the second core: a round of its loop, or an interrupt between two rounds.
pub data Step {C : Type 0} (rx : Scanners) (images : Images) : Core1 C → Core1 C → Type 0 where
  round : (r : Round C) (c : Core1 C) → Step rx images c (core1_round rx images r c)
  interrupt : (i : Interrupt) (c : Core1 C) → Step rx images c (core1_gpio_callback i c)

pub data Steps {C : Type 0} (rx : Scanners) (images : Images) : Core1 C → Core1 C → Type 0 where
  rest : (c : Core1 C) → Steps rx images c c
  then_step : {a b c : Core1 C} → Steps rx images a b → Step rx images b c → Steps rx images a c

Step-IsValid :
    {C : Type 0} {rx : Scanners} (images : Images) {a b : Core1 C}
    → Step rx images a b
    → Core1IsValid images a
    → Core1IsValid images b
Step-IsValid {rx = rx} images (round r c) v = core1_round-IsValid rx images r c v
Step-IsValid images (interrupt i c) v = core1_gpio_callback-IsValid images i c v

-- Whatever rounds and interrupts follow each other, in whatever order and at whatever times, from a
-- second core whose decoder's context is valid and whose frames are in step with the variables that
-- describe them, both hold again.
pub Steps-IsValid :
    {C : Type 0} {rx : Scanners} (images : Images) {a b : Core1 C}
    → Steps rx images a b
    → Core1IsValid images a
    → Core1IsValid images b
Steps-IsValid images (rest c) v = v
Steps-IsValid images (then_step q s) v = Step-IsValid images s (Steps-IsValid images q v)
