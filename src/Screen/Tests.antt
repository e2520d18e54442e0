-- ===== src/Screen/Tests.antt =====
-- The display task at concrete inputs.
use lcdpico_34401a.Common.{
  ℕ, zero, suc, ◌+◌, ◌≤◌, ◌≡◌, refl, inl, arith, true, false, List, [], ◌∷◌, ◌++◌, get_or, drop,
  replicate, codes,
}
use lcdpico_34401a.Decoder.State.{Display, Message, init}
use lcdpico_34401a.Screen.Cells.{Cell, layout, cells_of}
use lcdpico_34401a.Screen.Cells.Text.{marks, used, spelled_all}
use lcdpico_34401a.Screen.Cells.Reach.{cells_of-spelled}
use lcdpico_34401a.Screen.Status.{Status, poll, take_message}
use lcdpico_34401a.Screen.Status.Hold.{polls, take_message-shows, take_message-waits}
use lcdpico_34401a.Screen.Theme.{tile_of}
use lcdpico_34401a.Screen.Theme.Tiles.{glyph_of, tile_of-glyph}
use lcdpico_34401a.Screen.Update.{Lcd, Call}
use lcdpico_34401a.Screen.Update.Shows.{empty_cell, Memory, InStep, ShowsAt}
use lcdpico_34401a.Screen.Update.Frames.{Refreshed, update_display-InStep}
use lcdpico_34401a.Screen.Task.{Task, display_status, length-cells_of, display_status-known}

-- "-1.5,3 VDC" and spaces.
abbrev volts : Display
volts =
    let d : Display = init.display in
    record d { main = codes "-1.5,3 VDC" ++ (replicate 5 32 ++ 0 ∷ []); blink_mask = 4 }

abbrev reading : Message
reading = let m : Message = init.message in record m { valid_reading = true; corrupt_msg = false }

abbrev unknown : Message
unknown =
    let m : Message = init.message in
    record m { valid_reading = false; menu_msg = false; corrupt_msg = false }

abbrev no_cells : List Cell
no_cells = replicate 12 empty_cell

abbrev fresh : Status
fresh = record {
  last_main = replicate 16 32;
  last_ann_state = 0;
  old_ann_state = 0;
  last_blink_mask = 0;
  last_ann_change = 0;
  cur_disp_txt = replicate 16 0;
  cur_disp = no_cells;
  disp = no_cells;
  new_disp_time = 0;
  shown_txt = replicate 16 0;
}

abbrev pub dark : Lcd
dark = record {
  state = 0;
  cells0 = no_cells;
  cells1 = no_cells;
  ind0 = 0;
  ind1 = 0;
  max_delta = 0;
  min_delta = 0;
  misa = 0;
}

abbrev pub cleared : Memory
cleared fb k = []

abbrev pub at_one : Call
at_one = record { characters = 1000000; lights = 2000000; clock = λ i. 100000 + i; delta = 900 }

abbrev pub boot : Task
boot = record { status = fresh; lcd = dark; memory = cleared }

no_cell : (n k : ℕ) → get_or (replicate n empty_cell) k empty_cell ≡ empty_cell
no_cell zero k = refl
no_cell (suc n) zero = refl
no_cell (suc n) (suc k) = no_cell n k

pub dark-InStep : InStep 1000000 cleared dark
dark-InStep = record {
  two = omega arith;
  long0 = refl;
  long1 = refl;
  shows0 = λ k h. inl (no_cell 12 k, refl);
  shows1 = λ k h. inl (no_cell 12 k, refl);
}

few_marks : marks volts.main ≤ 3
unfolding marks
few_marks = omega arith

cells_of-spelled_example :
    (spelled_all (cells_of volts) ++ drop (used volts.main 12 0) volts.main ≡ volts.main)
    × (cells_of (record volts { last_reading = b'.' ∷ [] }) ≡ cells_of volts)
cells_of-spelled_example = cells_of-spelled volts (b'.' ∷ []) refl few_marks

-- With eight points the layout reads behind the line: a point there becomes a mark of cell 9.
reads_behind :
    (get_or (layout (codes "1.2.3.4.5.6.7.8" ++ 0 ∷ b'.' ∷ []) 0 12 0 0) 8 empty_cell).flags ≡ 1
unfolding layout
reads_behind = refl

take_message-shows_example :
    let s' : Status = polls (900 ∷ 500000 ∷ []) (take_message 7 8 volts reading fresh) in
    (s'.cur_disp ≡ cells_of volts) × (s'.shown_txt ≡ volts.main)
take_message-shows_example = take_message-shows 7 8 volts reading fresh (900 ∷ 500000 ∷ []) refl

take_message-waits_example :
    let held : Status = polls (900 ∷ []) (take_message 7 8 volts unknown fresh) in
    let s' : Status = polls (500000 ∷ []) (poll 300008 held) in
    (held.cur_disp ≡ no_cells)
    × (held.shown_txt ≡ replicate 16 0)
    × (s'.cur_disp ≡ cells_of volts)
    × (s'.shown_txt ≡ volts.main)
take_message-waits_example =
    take_message-waits 7 8 volts unknown fresh (900 ∷ []) (500000 ∷ []) 300008 refl (omega arith)
      (omega arith, tt) (omega arith)

update_display-InStep_example : Refreshed at_one false (cells_of volts) 3 dark cleared
update_display-InStep_example =
    update_display-InStep at_one false (cells_of volts) 3 dark cleared (length-cells_of volts)
      dark-InStep

display_status-known_example :
    let t' : Task = display_status true true at_one 7 8 volts reading boot in
    InStep 1000000 t'.memory t'.lcd
    × ShowsAt 1000000 at_one.clock t'.memory t'.lcd.misa (cells_of volts)
    × (spelled_all (cells_of volts) ++ drop (used volts.main 12 0) volts.main ≡ volts.main)
display_status-known_example =
    display_status-known at_one 7 8 volts reading boot dark-InStep refl refl few_marks

tile_of-glyph_example : tile_of b'a' ≡ glyph_of b'a'
tile_of-glyph_example = tile_of-glyph b'a' (omega arith)
