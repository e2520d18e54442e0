-- ===== src/Screen/Refresh.antt =====
-- `update_display`: the copies that bring the hidden frame up to date, and the switch to it.
pub mod Regions
pub mod Frame
use lcdpico_34401a.Common.{
  ℕ, zero, suc, ◌+◌, ◌-◌, ◌*◌, ◌/◌, ◌%◌, ◌^◌, Bool, true, false, not, ◌&&◌, ◌||◌, List, [], ◌∷◌,
  ◌++◌, ltb, ◌==◌, if◌then◌else◌, bit_and,
}
use lcdpico_34401a.Screen.Cells.{Cell, display_cols}
use lcdpico_34401a.Screen.Theme.{
  char_x_offset, char_w, char_h, char_map_w, Overlay, char_overlays, tile_of,
}

-- A call of `lt7680_bte_memory_copy` from an image in video memory to a frame.
pub record Copy : Type 0 where
  pub fb : ℕ
  pub x : ℕ
  pub y : ℕ
  pub image : ℕ
  pub tile_x : ℕ
  pub tile_y : ℕ
  pub w : ℕ
  pub h : ℕ

-- The frames' addresses, from src/lcd/er-tft371-1.h.
abbrev pub layer1 : ℕ
layer1 = 0

abbrev pub layer2 : ℕ
layer2 = 460800

abbrev pub frame_of : ℕ → ℕ
frame_of state = if state == 0 then layer1 else layer2

-- Characters stand one above the other, the first one at the bottom: the panel is mounted upright.
abbrev pub cell_y : ℕ → ℕ
cell_y i = (display_cols - 1 - i) * char_h

unfoldable pub tile_copy : ℕ → ℕ → ℕ → ℕ → Copy
tile_copy image fb i tile = record {
  fb = fb;
  x = char_x_offset;
  y = cell_y i;
  image = image;
  tile_x = tile % char_map_w * char_w;
  tile_y = tile / char_map_w * char_h;
  w = char_w;
  h = char_h;
}

unfoldable pub overlay_copy : ℕ → ℕ → ℕ → Overlay → Copy
overlay_copy image fb i o = record {
  fb = fb;
  x = char_x_offset + o.x;
  y = cell_y i + o.y;
  image = image;
  tile_x = o.tile % char_map_w * char_w + o.x;
  tile_y = o.tile / char_map_w * char_h + o.y;
  w = o.w;
  h = o.h;
}

-- The overlays whose bits are set, from bit `n` on.
unfoldable pub overlay_copies : ℕ → ℕ → ℕ → ℕ → ℕ → List Overlay → List Copy
unfolding overlay_copy
overlay_copies image fb i flags n [] = []
overlay_copies image fb i flags n (o ∷ os) =
    let rest : List Copy = overlay_copies image fb i flags (suc n) os in
    if bit_and flags (2 ^ n) == 0 then rest else overlay_copy image fb i o ∷ rest

-- A character that blinks is dark in every other tenth of a second.
abbrev pub is_dark : Cell → ℕ → Bool
is_dark cell now = cell.blink && now / 100000 % 2 == 1

unfoldable pub draw_cell : ℕ → ℕ → ℕ → ℕ → Cell → List Copy
unfolding tile_copy overlay_copies
draw_cell image fb now i cell =
    tile_copy image fb i (if is_dark cell now then tile_of b' ' else tile_of cell.c)
    ∷ overlay_copies image fb i cell.flags 0 char_overlays

-- Whether a cell has to be drawn again.
unfoldable pub must_draw : Bool → Cell → Cell → Bool
must_draw force new old =
    force || not (new.c == old.c) || not (new.flags == old.flags) || new.blink || old.blink

-- What the loop over the cells leaves in `display_state`, and what it draws.
pub record Drawn : Type 0 where
  pub cells : List Cell
  pub copies : List Copy

-- The loop over the cells from number `i` on; `clock` is the time that it reads at each cell.
unfoldable pub draw_cells : ℕ → ℕ → (ℕ → ℕ) → Bool → ℕ → List Cell → List Cell → Drawn
unfolding draw_cell must_draw
draw_cells image fb clock force i [] old = record { cells = old; copies = [] }
draw_cells image fb clock force i (x ∷ new) [] = record { cells = []; copies = [] }
draw_cells image fb clock force i (x ∷ new) (y ∷ old) =
    let rest : Drawn = draw_cells image fb clock force (suc i) new old in
    if must_draw force x y
    then record { cells = x ∷ rest.cells; copies = draw_cell image fb (clock i) i x ++ rest.copies }
    else record { cells = y ∷ rest.cells; copies = rest.copies }
