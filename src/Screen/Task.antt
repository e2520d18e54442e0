-- ===== src/Screen/Task.antt =====
-- `display_status` as a whole: the message, then the refresh of the LCD.
use mathlib.Core.Path.{subst}
use lcdpico_34401a.Common.{
  ℕ, zero, suc, ◌≤◌, ◌≡◌, refl, ap, ◌∙◌, Bool, true, false, not, List, [], ◌++◌, length, drop,
  if◌then◌else◌,
}
use lcdpico_34401a.Decoder.State.{Display, Message}
use lcdpico_34401a.Screen.Cells.{advance, layout, cells_of, dmm_text}
use lcdpico_34401a.Screen.Cells.Text.{marks, used, spelled_all}
use lcdpico_34401a.Screen.Cells.Reach.{cells_of-spelled}
use lcdpico_34401a.Screen.Status.{Status, poll, take_message}
use lcdpico_34401a.Screen.Status.Hold.{is_known, polls, take_message-shows}
use lcdpico_34401a.Screen.Update.{Lcd, Call, update_copies, update_display}
use lcdpico_34401a.Screen.Update.Shows.{Memory, painted, InStep, ShowsAt}
use lcdpico_34401a.Screen.Update.Frames.{update_display-InStep}

-- The task's variables, and what the frames show.
pub record Task : Type 0 where
  pub status : Status
  pub lcd : Lcd
  pub memory : Memory

-- The refresh that ends every call.
unfoldable pub redraw : Call → Display → Status → Task → Task
unfolding update_display update_copies
redraw call d s t = record {
  status = s;
  lcd = update_display call false s.cur_disp d.ann_state t.lcd;
  memory = painted (update_copies call false s.cur_disp d.ann_state t.lcd) t.memory;
}

unfoldable pub display_status : Bool → Bool → Call → ℕ → ℕ → Display → Message → Task → Task
unfolding redraw poll take_message
display_status display_active new_data call now ann_now d m t =
    if not display_active
    then t
    else redraw call d
        (if new_data then take_message now ann_now d m t.status else poll now t.status) t

length-layout : (s : List ℕ) (mask n i d : ℕ) → length (layout s mask n i d) ≡ n
unfolding layout
length-layout s mask zero i d = refl
length-layout s mask (suc n) i d = ap suc (length-layout s mask n (suc i) (advance s d))

pub length-cells_of : (d : Display) → length (cells_of d) ≡ 12
unfolding cells_of
length-cells_of d = length-layout (dmm_text d) d.blink_mask 12 0 0

-- On an active display whose frames and variables agree, a call with a new message that is a reading
-- or a menu line, with a line of 16 bytes and at most three marks, shows the message's cells when it
-- returns: the regions of the frame that the LCD then shows hold them, but that one in which nothing
-- was ever drawn may stay black if its cell is empty, and they spell the beginning of the line.
-- Frames and variables agree again.
pub display_status-known :
    (call : Call) (now ann_now : ℕ) (d : Display) (m : Message) (t : Task)
    → InStep call.characters t.memory t.lcd
    → is_known m ≡ true
    → length d.main ≡ 16
    → marks d.main ≤ 3
    → let t' : Task = display_status true true call now ann_now d m t in
      InStep call.characters t'.memory t'.lcd
      × ShowsAt call.characters call.clock t'.memory t'.lcd.misa (cells_of d)
      × (spelled_all (cells_of d) ++ drop (used d.main 12 0) d.main ≡ d.main)
unfolding display_status redraw polls
display_status-known call now ann_now d m t v known long few =
    let s : Status = take_message now ann_now d m t.status in
    let shown : s.cur_disp ≡ cells_of d =
      (take_message-shows now ann_now d m t.status [] known).0 in
    let drawn =
      update_display-InStep call false s.cur_disp d.ann_state t.lcd t.memory
        (ap length shown ∙ length-cells_of d) v in
    (
      drawn.0,
      subst
          (λ x.
            ShowsAt call.characters call.clock
              (painted (update_copies call false s.cur_disp d.ann_state t.lcd) t.memory)
              (update_display call false s.cur_disp d.ann_state t.lcd).misa x)
          shown drawn.1,
      (cells_of-spelled d [] long few).0,
    )
