-- ===== src/Screen/Status.antt =====
-- `display_status`: which cells the LCD shows, and when. The log is left out.
pub mod Hold
use lcdpico_34401a.Common.{
  ℕ, ◌+◌, ◌-◌, Bool, true, false, not, ◌&&◌, ◌||◌, List, [], ◌∷◌, ltb, ◌==◌, if◌then◌else◌, bit_and,
}
use lcdpico_34401a.Util.Copies.{c_string}
use lcdpico_34401a.Decoder.State.{Display, Message}
use lcdpico_34401a.Screen.Cells.{Cell, cells_of}

-- The static variables of `display_status`, and the text that `state->disp` holds for the others.
pub record Status : Type 0 where
  pub last_main : List ℕ
  pub last_ann_state : ℕ
  pub old_ann_state : ℕ
  pub last_blink_mask : ℕ
  pub last_ann_change : ℕ
  pub cur_disp_txt : List ℕ
  pub cur_disp : List Cell
  pub disp : List Cell
  pub new_disp_time : ℕ
  pub shown_txt : List ℕ

-- `!strncmp(a, b, 16)`, for texts of 16 bytes.
unfoldable pub same_text : List ℕ → List ℕ → Bool
same_text [] [] = true
same_text [] (d ∷ t) = false
same_text (c ∷ s) [] = false
same_text (c ∷ s) (d ∷ t) = c == d && same_text s t

-- Show the cells that were laid out last.
unfoldable pub show : Status → Status
show s = record s { shown_txt = s.cur_disp_txt; cur_disp = s.disp; new_disp_time = 0 }

-- Without new data: a message that waits is shown after 300 ms.
abbrev pub is_due : ℕ → ℕ → Bool
is_due now since = ltb 0 since && ltb (since + 300000) now

unfoldable pub poll : ℕ → Status → Status
unfolding show
poll now s = if is_due now s.new_disp_time then show s else s

-- A new message is laid out.
unfoldable pub lay_out : ℕ → Display → Status → Status
lay_out now d s = record s { disp = cells_of d; new_disp_time = now; cur_disp_txt = d.main }

unfoldable pub menu_changed : Display → Message → Status → Bool
unfolding same_text
menu_changed d m s = m.menu_msg && not (same_text (c_string s.last_main) (c_string d.main))

unfoldable pub note_menu : Display → Message → Status → Status
unfolding menu_changed
note_menu d m s = if menu_changed d m s then record s { last_main = d.main } else s

-- A line that is known is shown at once; any other waits.
unfoldable pub release : Display → Message → Status → Status
unfolding show note_menu
release d m s =
    if m.corrupt_msg
    then s
    else let noted : Status = note_menu d m s in
      if m.valid_reading || m.menu_msg then show noted else noted

-- The mask leaves out the sample annunciator.
abbrev pub ann_changed : Display → Status → Bool
ann_changed d s = not (bit_and s.last_ann_state 0xfffe == bit_and d.ann_state 0xfffe)

abbrev pub ann_settled : ℕ → Status → Bool
ann_settled now s = ltb 0 s.last_ann_change && ltb 350000 (now - s.last_ann_change)

-- Changes of the annunciators are noted for the log.
unfoldable pub note_annunciators : ℕ → Display → Status → Status
note_annunciators now d s =
    if ann_changed d s
    then (if s.last_ann_change == 0
        then record s {
          last_ann_change = now;
          old_ann_state = bit_and s.last_ann_state 0xfffe;
          last_ann_state = d.ann_state;
        }
        else record s { last_ann_state = d.ann_state })
    else if ann_settled now s
    then record s { last_ann_change = 0 }
    else s

unfoldable pub note_blink : Display → Status → Status
note_blink d s =
    if not (d.blink_mask == s.last_blink_mask)
    then record s { last_blink_mask = d.blink_mask }
    else s

-- A call with new data. The clock is read for the message and for the annunciators.
unfoldable pub take_message : ℕ → ℕ → Display → Message → Status → Status
unfolding lay_out release note_annunciators note_blink
take_message now ann_now d m s =
    note_blink d (note_annunciators ann_now d (release d m (lay_out now d s)))
