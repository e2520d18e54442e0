-- ===== src/Core1/Meter.antt =====
-- From the bytes that wait to the LCD, in one round of the second core's loop.
use mathlib.Core.Path.{subst}
use lcdpico_34401a.Common.{
  ℕ, ◌≤◌, ◌≡◌, refl, sym, ap, ◌∙◌, Bool, true, false, not, ◌||◌, List, ◌++◌, length, drop, ◌==◌,
}
use lcdpico_34401a.Decoder.State.{SniffByte, Display, Context}
use lcdpico_34401a.Decoder.Valid.Rounds.{process-IsValid}
use lcdpico_34401a.Decoder.Fifo.{contents}
use lcdpico_34401a.Decoder.Drain.{stamped, checked, process_drains}
use lcdpico_34401a.Decoder.Frames.{accept_all}
use lcdpico_34401a.Decoder.Frames.Kinds.{IsIdle}
use lcdpico_34401a.Decoder.Scanned.{firmware}
use lcdpico_34401a.Screen.Cells.{cells_of}
use lcdpico_34401a.Screen.Cells.Text.{marks, used, spelled_all}
use lcdpico_34401a.Screen.Update.Shows.{ShowsAt}
use lcdpico_34401a.Screen.Status.Hold.{is_known}
use lcdpico_34401a.Screen.Task.{display_status-known}
use lcdpico_34401a.Core1.{
  Core1, Round, Images, call_of, has_news, time_passed, update_config, update_state, decode,
  refresh_display, core1_round,
}
use lcdpico_34401a.Core1.Steps.{Core1IsValid}
use lcdpico_34401a.Core1.Reading.{IsReadingFrame, accept_all-Decoded, checked-same, Moved-has_news}

either : (a b : Bool) → b ≡ true → (a || b) ≡ true
either true b h = refl
either false b h = h

-- The display's share of a round, where the decoder has left a new reading.
refresh_display-shows :
    {C : Type 0} (images : Images) (r : Round C) (c : Core1 C) (line : List ℕ)
    → Core1IsValid images c
    → r.display_active ≡ true
    → c.dmm.display.main ≡ line
    → length c.dmm.display.main ≡ 16
    → marks line ≤ 3
    → is_known c.dmm.message ≡ true
    → has_news c ≡ true
    → let c' : Core1 C = refresh_display images r c in
      (c'.dmm ≡ c.dmm)
      × ShowsAt images.characters r.cells c'.task.memory c'.task.lcd.misa (cells_of c.dmm.display)
      × (spelled_all (cells_of c.dmm.display) ++ drop (used line 12 0) line ≡ line)
unfolding refresh_display
refresh_display-shows images r c line v active main long few known news =
    let shown =
      display_status-known (call_of images r) r.message_now r.ann_now c.dmm.display c.dmm.message
        c.task v.task_valid.in_step known long (rw main few) in
    let due : ((time_passed c.t_display 250 r.display_now).0 || has_news c) ≡ true =
      either (time_passed c.t_display 250 r.display_now).0 (has_news c) news in
    rw (due, active, news)
      (
        refl,
        shown.1,
        subst (λ l. spelled_all (cells_of c.dmm.display) ++ drop (used l 12 0) l ≡ l) main shown.2,
      )

-- If the byte pairs that wait are a whole frame that spells a clean reading with at most three marks,
-- the decoder is valid and between two frames with no reset pending, its next byte begins a new
-- line, and the frames of video memory are in step with the variables that describe them, then one
-- round of the loop brings the reading to the LCD: the FIFO is empty, the display's line is the one
-- that the frame spells, and the frame of video memory that the LCD shows holds cells that spell
-- the beginning of that line, but that a region in which nothing was ever drawn may stay black if
-- its cell is empty. The display is active, and all earlier data has been handed to it.
pub core1_round-reading :
    {C : Type 0} (images : Images) (r : Round C) (c : Core1 C) (line : List ℕ)
    → Core1IsValid images c
    → r.display_active ≡ true
    → c.dmm_last ≡ c.dmm.display.new_data_counter
    → c.dmm.sniff.reset_received ≡ false
    → IsIdle c.dmm.frame
    → c.dmm.message.msg_work_need_reset ≡ true
    → IsReadingFrame (stamped r.decoder 256 (contents c.dmm.sniff)) line
    → let c' : Core1 C = core1_round firmware images r c in
      (c'.dmm.sniff.fifo_rd ≡ c'.dmm.sniff.fifo_wr)
      × (c'.dmm.display.main ≡ line)
      × ShowsAt images.characters r.cells c'.task.memory c'.task.lcd.misa (cells_of c'.dmm.display)
      × (spelled_all (cells_of c'.dmm.display) ++ drop (used line 12 0) line ≡ line)
unfolding core1_round decode update_state update_config
core1_round-reading {C = C} images r c line v active seen no_reset idle ready f =
    let drained = process_drains firmware r.decoder c.dmm v.dmm_valid no_reset in
    let frame : List (ℕ × SniffByte) = stamped r.decoder 256 (contents c.dmm.sniff) in
    let start = checked-same r.decoder c.dmm in
    let d =
      accept_all-Decoded (checked r.decoder c.dmm) frame line (rw start.0 idle) (rw start.1 ready)
        f in
    let same_display = drained.2.0 in
    let same_message = drained.2.3 in
    let before : Core1 C = decode firmware r (update_state r (update_config r c)) in
    let main : before.dmm.display.main ≡ line =
      ap (λ (x : Display). x.main) same_display ∙ d.main in
    let old : ℕ = c.dmm.display.new_data_counter in
    let news : has_news before ≡ true =
      ap (λ l. not (before.dmm.display.new_data_counter == l)) seen
      ∙ (ap (λ (x : Display). not (x.new_data_counter == old)) same_display
          ∙ Moved-has_news old (checked r.decoder c.dmm).display.new_data_counter
              (accept_all firmware frame (checked r.decoder c.dmm)).display.new_data_counter start.2
              d.news) in
    let valid : Core1IsValid images before = record {
      dmm_valid = process-IsValid firmware r.decoder c.dmm v.dmm_valid;
      task_valid = v.task_valid;
    } in
    let shown =
      refresh_display-shows images r before line valid active main
        (ap (λ (x : Display). length x.main) same_display ∙ d.long) f.few_marks
        (ap is_known same_message ∙ d.known) news in
    let after : Core1 C = refresh_display images r before in
    (
      ap (λ (m : Context). m.sniff.fifo_rd) shown.0
          ∙ (drained.0 ∙ (sym drained.1 ∙ sym (ap (λ (m : Context). m.sniff.fifo_wr) shown.0))),
      ap (λ (m : Context). m.display.main) shown.0 ∙ main,
      subst
          (λ (m : Context).
            ShowsAt images.characters r.cells after.task.memory after.task.lcd.misa
              (cells_of m.display))
          (sym shown.0) shown.1,
      subst (λ (m : Context). spelled_all (cells_of m.display) ++ drop (used line 12 0) line ≡ line)
          (sym shown.0) shown.2,
    )
