-- ===== src/Decoder/FrameTests.antt =====
-- The theorems on button, annunciator and control frames at concrete inputs.
use lcdpico_34401a.Common.{◌≡◌, refl, arith, true, false, [], ◌∷◌, ◌++◌}
use lcdpico_34401a.Decoder.State.{frame_unknown, Context}
use lcdpico_34401a.Decoder.Publish.{process_shift_window}
use lcdpico_34401a.Decoder.Frames.{accept_all}
use lcdpico_34401a.Decoder.Frames.Kinds.{IsIdle, kind_of}
use lcdpico_34401a.Decoder.Buttons.{button_frame, button_frame_lem}
use lcdpico_34401a.Decoder.Buttons.Presses.{press, check, beats, shift_presses}
use lcdpico_34401a.Decoder.Panel.Readings.{annunciator_frame, control_frame}
use lcdpico_34401a.Decoder.Tests.{all_readings, pair, eof, idle, between_frames}

button_frame_example :
    let ctx' : Context = accept_all all_readings (button_frame 5 (pair 0 0x9d) 0xcf) idle in
    (ctx'.shift
      ≡ record { shift_press_count = 1; shift_window_active = true; shift_window_start_us = 5 })
    × (ctx'.display ≡ idle.display)
    × (ctx'.message ≡ idle.message)
    × IsIdle ctx'.frame
button_frame_example =
    button_frame_lem all_readings 5 (pair 0 0x9d) 0xcf idle between_frames refl (omega arith)
      (omega arith) (omega arith)

-- Three presses within the window, and a late check.
shift_presses_example :
    let ctx' : Context =
      process_shift_window 300301 (
        beats all_readings (press 100 ∷ check 150 ∷ press 200 ∷ press 300 ∷ check 400 ∷ []) idle) in
    (ctx'.shift.shift_window_active ≡ false)
    × (ctx'.display.ann_state ≡ 0x0800)
    × (ctx'.display.new_data_counter ≡ 1)
shift_presses_example =
    shift_presses all_readings 100 300301 (check 150 ∷ press 200 ∷ press 300 ∷ check 400 ∷ []) idle
      between_frames refl (omega arith, (omega arith, tt)) (omega arith)

annunciator_frame_example :
    let ctx' : Context =
      accept_all all_readings
        ((1, pair 0x7f 0)
          ∷ (2, pair 0 0)
          ∷ (((3, pair 0x21 0) ∷ (4, pair 0x1c 0) ∷ []) ++ ((5, eof) ∷ [])))
        idle in
    (ctx'.display.ann_state ≡ 0x1421)
    × (ctx'.display.new_data_counter ≡ 1)
    × (ctx'.display.main ≡ idle.display.main)
    × (ctx'.message ≡ idle.message)
    × (ctx'.frame.frame_state ≡ frame_unknown)
    × (ctx'.frame.buf_len ≡ 0)
unfolding kind_of
annunciator_frame_example =
    annunciator_frame all_readings idle 1 2 5 (pair 0x7f 0) (pair 0 0) eof (3, pair 0x21 0)
      (4, pair 0x1c 0) [] between_frames refl refl refl refl (omega arith) (refl, (refl, tt))
      (omega arith) (omega arith) refl

control_frame_example :
    let ctx' : Context =
      accept_all all_readings
        ((1, pair 0x62 0) ∷ (2, pair 0x49 0) ∷ ([] ++ ((3, eof) ∷ [])))
        idle in
    (ctx'.display.blink_mask ≡ 4)
    × (ctx'.display.new_data_counter ≡ 1)
    × (ctx'.display.main_counter ≡ 1)
    × (ctx'.display.main ≡ idle.display.main)
    × (ctx'.display.ann_state ≡ idle.display.ann_state)
    × (ctx'.display.ann_counter ≡ idle.display.ann_counter)
    × (ctx'.display.last_reading ≡ idle.display.last_reading)
    × (ctx'.message ≡ idle.message)
    × (ctx'.frame.frame_state ≡ frame_unknown)
    × (ctx'.frame.buf_len ≡ 0)
unfolding kind_of
control_frame_example =
    control_frame all_readings idle 1 2 3 (pair 0x62 0) (pair 0x49 0) eof [] between_frames refl
      refl refl refl (omega arith) tt (omega arith) refl
