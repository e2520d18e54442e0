-- ===== src/Screen/Cells.antt =====
-- The text of the meter as twelve cells, each with a character and the marks behind it: the loop of
-- `display_status`.
pub mod Text
pub mod Reach
use lcdpico_34401a.Common.{
  ℕ, zero, suc, ◌+◌, ◌-◌, ◌/◌, ◌%◌, ◌^◌, Bool, true, false, not, List, [], ◌∷◌, ◌++◌, get_or, ltb,
  ◌==◌, if◌then◌else◌, bit_and, bit_or,
}
use lcdpico_34401a.Decoder.State.{Display}

-- `struct display_cell_state`
pub record Cell : Type 0 where
  pub c : ℕ
  pub flags : ℕ
  pub blink : Bool

abbrev pub display_cols : ℕ
display_cols = 12

-- Bits of `flags`, from the themes' headers.
abbrev pub overlay_period : ℕ
overlay_period = 0

abbrev pub overlay_comma : ℕ
overlay_comma = 1

abbrev pub overlay_dot : ℕ
overlay_dot = 2

-- The memory from `state->dmm.main` on: `last_reading` stands behind it.
abbrev pub dmm_text : Display → List ℕ
dmm_text d = d.main ++ d.last_reading

-- `flags`, from the character behind the one that the cell shows.
unfoldable pub overlays : ℕ → ℕ
overlays next =
    if next == b'.'
    then 2 ^ overlay_period
    else if next == b','
    then 2 ^ overlay_comma
    else if next == b':'
    then bit_or (2 ^ overlay_period) (2 ^ overlay_dot)
    else 0

-- Whether the mark is passed over: it is not if the cell itself shows it.
unfoldable pub takes_mark : ℕ → ℕ → Bool
takes_mark c next =
    if next == b'.'
    then not (c == b'.')
    else if next == b','
    then not (c == b',')
    else if next == b':'
    then not (c == b':')
    else false

-- `d` stays in the text of 16 bytes.
abbrev pub clamp : ℕ → ℕ
clamp d = if ltb 15 d then 15 else d

-- Where the loop goes on behind the cell that begins at `d`.
unfoldable pub advance : List ℕ → ℕ → ℕ
unfolding takes_mark
advance dmm d =
    let e : ℕ = clamp d in
    if takes_mark (get_or dmm e 0) (get_or dmm (suc e) 0) then suc (suc e) else suc e

unfoldable pub cell_at : List ℕ → ℕ → ℕ → ℕ → Cell
unfolding overlays
cell_at dmm blink_mask i d =
    let e : ℕ = clamp d in
    record {
      c = get_or dmm e 0;
      flags = overlays (get_or dmm (suc e) 0);
      blink = not (bit_and blink_mask (2 ^ i) == 0);
    }

-- `n` cells from number `i` on, where the text has been used up to `d`.
unfoldable pub layout : List ℕ → ℕ → ℕ → ℕ → ℕ → List Cell
unfolding cell_at advance
layout dmm blink_mask zero i d = []
layout dmm blink_mask (suc n) i d =
    cell_at dmm blink_mask i d ∷ layout dmm blink_mask n (suc i) (advance dmm d)

-- The cells of the display.
unfoldable pub cells_of : Display → List Cell
unfolding layout
cells_of d = layout (dmm_text d) d.blink_mask display_cols 0 0
