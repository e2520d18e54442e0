-- ===== src/Screen/Update.antt =====
-- The whole of `update_display`, over the two frames.
pub mod Shows
pub mod Frames
use lcdpico_34401a.Common.{
  ℕ, zero, suc, ◌+◌, ◌-◌, ◌*◌, ◌/◌, ◌%◌, ◌^◌, Bool, true, false, not, ◌&&◌, ◌||◌, List, [], ◌∷◌,
  ◌++◌, get_or, ltb, ◌==◌, if◌then◌else◌, bit_and,
}
use lcdpico_34401a.Screen.Cells.{Cell}
use lcdpico_34401a.Screen.Theme.{
  Indicator, ind_w, ind_h, ind_map_w, indicator_blank, indicator_map, indicators, no_indicator,
}
use lcdpico_34401a.Screen.Refresh.{Copy, frame_of, Drawn, draw_cells}

abbrev pub indicator_at : ℕ → Indicator
indicator_at n = get_or indicators n no_indicator

unfoldable pub light_copy : ℕ → ℕ → ℕ → Indicator → Copy
light_copy image fb tile d = record {
  fb = fb;
  x = 0;
  y = d.y;
  image = image;
  tile_x = tile % ind_map_w * ind_w;
  tile_y = tile / ind_map_w * ind_h;
  w = ind_w;
  h = if ltb 0 d.h then d.h else ind_h;
}

abbrev pub is_lit : ℕ → ℕ → Bool
is_lit flags i = not (bit_and flags (2 ^ i) == 0)

-- The light for bit `i`, if it has to be drawn. Mode 0 is drawn when it changes; modes 1 and 2 share
-- a place and are drawn each time, mode 2 only when it is on.
unfoldable pub draw_light : ℕ → ℕ → ℕ → ℕ → ℕ → List Copy
unfolding light_copy
draw_light image fb flags old i =
    let ind : ℕ = get_or indicator_map i 0 in
    let d : Indicator = indicator_at ind in
    if ind == indicator_blank
    then []
    else if bit_and flags (2 ^ i) == bit_and old (2 ^ i) && d.mode == 0
    then []
    else if is_lit flags i
    then light_copy image fb d.tile d ∷ []
    else if d.mode == 2
    then []
    else light_copy image fb (indicator_at indicator_blank).tile d ∷ []

-- `n` lights from bit `i` on.
unfoldable pub draw_lights : ℕ → ℕ → ℕ → ℕ → ℕ → ℕ → List Copy
unfolding draw_light
draw_lights image fb flags old zero i = []
draw_lights image fb flags old (suc n) i =
    draw_light image fb flags old i ++ draw_lights image fb flags old n (suc i)

-- The static variables, and the address that the LCD shows.
pub record Lcd : Type 0 where
  pub state : ℕ
  pub cells0 : List Cell
  pub cells1 : List Cell
  pub ind0 : ℕ
  pub ind1 : ℕ
  pub max_delta : ℕ
  pub min_delta : ℕ
  pub misa : ℕ

-- `display_state[state]` and `indicator_state[state]`
abbrev pub cells_in : Lcd → ℕ → List Cell
cells_in l state = if state == 0 then l.cells0 else l.cells1

abbrev pub ind_in : Lcd → ℕ → ℕ
ind_in l state = if state == 0 then l.ind0 else l.ind1

unfoldable pub store : List Cell → ℕ → Lcd → Lcd
store cells ind l =
    if l.state == 0
    then record l { cells0 = cells; ind0 = ind }
    else record l { cells1 = cells; ind1 = ind }

unfoldable pub flip : Lcd → Lcd
flip l = record l { misa = frame_of l.state; state = if l.state == 0 then 1 else 0 }

unfoldable pub note_time : ℕ → Lcd → Lcd
note_time delta l =
    let longest : Lcd = if ltb l.max_delta delta then record l { max_delta = delta } else l in
    if ltb delta l.min_delta || l.min_delta == 0
    then record longest { min_delta = delta }
    else longest

-- The addresses of the two images, the times that the loop reads, and how long it took.
pub record Call : Type 0 where
  pub characters : ℕ
  pub lights : ℕ
  pub clock : ℕ → ℕ
  pub delta : ℕ

-- The cells that the loop leaves and what it draws.
unfoldable pub refresh : Call → Bool → List Cell → Lcd → Drawn
unfolding draw_cells
refresh call force new l =
    draw_cells call.characters (frame_of l.state) call.clock force 0 new (cells_in l l.state)

-- The copies of one call, in order.
unfoldable pub update_copies : Call → Bool → List Cell → ℕ → Lcd → List Copy
unfolding refresh draw_lights
update_copies call force new ind l =
    (refresh call force new l).copies
    ++ draw_lights call.lights (frame_of l.state) ind (ind_in l l.state) 16 0

-- The state behind one call. `indicator_state` has 16 bits.
unfoldable pub update_display : Call → Bool → List Cell → ℕ → Lcd → Lcd
unfolding refresh store flip note_time
update_display call force new ind l =
    note_time call.delta (flip (store (refresh call force new l).cells (ind % 65536) l))
