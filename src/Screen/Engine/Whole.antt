-- ===== src/Screen/Engine/Whole.antt =====
-- The lights of a refresh, and the refresh as a whole: every copy fits the registers.
use lcdpico_34401a.Common.{
  ℕ, zero, suc, ◌<◌, ◌≤◌, ◌≡◌, refl, arith, Bool, true, false, ◌&&◌, Bool-cases, inl, inr, List, [],
  ◌∷◌, get_or, all, leb, ◌==◌, if◌then◌else◌, bit_and, ◌^◌,
}
use lcdpico_34401a.Screen.Cells.{Cell}
use lcdpico_34401a.Screen.Theme.{
  Indicator, indicators, no_indicator, indicator_map, indicator_blank,
}
use lcdpico_34401a.Screen.Refresh.{Copy, frame_of, draw_cells}
use lcdpico_34401a.Screen.Update.{
  Lcd, Call, indicator_at, light_copy, is_lit, draw_light, draw_lights, refresh, update_copies,
}
use lcdpico_34401a.Screen.Engine.{CopyFits, AllFit, AllFit-append, draw_cells-AllFit}

-- The lights of the theme.
abbrev is_small : Indicator → Bool
is_small d = leb d.tile 15 && (leb d.h 80 && leb d.y 900)

indicator-small :
    (ds : List Indicator) (n : ℕ)
    → all is_small ds ≡ true
    → is_small (get_or ds n no_indicator) ≡ true
indicator-small [] n h = refl
indicator-small (d ∷ ds) zero h = elim (Bool-cases (is_small d)) [
  | inl e ↦ e
  | inr e ↦ absurd (ground (arith, e, h))
]
indicator-small (d ∷ ds) (suc n) h = elim (Bool-cases (is_small d)) [
  | inl e ↦ indicator-small ds n (rw e at h)
  | inr e ↦ absurd (ground (arith, e, h))
]

light_copy-CopyFits :
    (image fb tile : ℕ) (d : Indicator)
    → image < 4294967296
    → fb < 4294967296
    → tile ≤ 15
    → is_small d ≡ true
    → CopyFits (light_copy image fb tile d)
unfolding light_copy
light_copy-CopyFits image fb tile d hi hf ht hd = record {
  fb_fits = hf;
  x_fits = omega arith;
  y_fits = ground arith;
  image_fits = hi;
  tile_x_fits = omega arith;
  tile_y_fits = omega arith;
  w_fits = omega arith;
  h_fits = ground arith;
}

if-AllFit : (b : Bool) (ks ls : List Copy) → AllFit ks → AllFit ls → AllFit (if b then ks else ls)
if-AllFit true ks ls h g = h
if-AllFit false ks ls h g = g

draw_light-AllFit :
    (image fb flags old i : ℕ)
    → image < 4294967296
    → fb < 4294967296
    → AllFit (draw_light image fb flags old i)
unfolding draw_light
draw_light-AllFit image fb flags old i hi hf =
    let d : Indicator = indicator_at (get_or indicator_map i 0) in
    let small : is_small d ≡ true = indicator-small indicators (get_or indicator_map i 0) refl in
    let on : List Copy = light_copy image fb d.tile d ∷ [] in
    let off : List Copy = light_copy image fb (indicator_at indicator_blank).tile d ∷ [] in
    let dark : List Copy = if d.mode == 2 then [] else off in
    let lit : List Copy = if is_lit flags i then on else dark in
    if-AllFit (get_or indicator_map i 0 == indicator_blank) []
      (if bit_and flags (2 ^ i) == bit_and old (2 ^ i) && d.mode == 0 then [] else lit) tt
      (if-AllFit (bit_and flags (2 ^ i) == bit_and old (2 ^ i) && d.mode == 0) [] lit tt (
        if-AllFit (is_lit flags i) on dark
          (light_copy-CopyFits image fb d.tile d hi hf (ground (arith, small)) small, tt)
          (if-AllFit (d.mode == 2) [] off tt
            (light_copy-CopyFits image fb 15 d hi hf (omega arith) small, tt))))

draw_lights-AllFit :
    (image fb flags old n i : ℕ)
    → image < 4294967296
    → fb < 4294967296
    → AllFit (draw_lights image fb flags old n i)
unfolding draw_lights
draw_lights-AllFit image fb flags old zero i hi hf = tt
draw_lights-AllFit image fb flags old (suc n) i hi hf =
    AllFit-append (draw_light image fb flags old i) (draw_lights image fb flags old n (suc i))
      (draw_light-AllFit image fb flags old i hi hf)
      (draw_lights-AllFit image fb flags old n (suc i) hi hf)

pub frame-fits : (state : ℕ) → frame_of state < 4294967296
frame-fits state = ground arith

-- Every copy of a refresh fits.
pub update_copies-AllFit :
    (call : Call) (force : Bool) (new : List Cell) (ind : ℕ) (l : Lcd)
    → call.characters < 4294967296
    → call.lights < 4294967296
    → AllFit (update_copies call force new ind l)
unfolding update_copies refresh
update_copies-AllFit call force new ind l hc hl =
    let fb : ℕ = frame_of l.state in
    let old : List Cell = if l.state == 0 then l.cells0 else l.cells1 in
    let lights : ℕ = if l.state == 0 then l.ind0 else l.ind1 in
    AllFit-append (draw_cells call.characters fb call.clock force 0 new old).copies
      (draw_lights call.lights fb ind lights 16 0)
      (draw_cells-AllFit call.characters fb call.clock force 0 new old hc (frame-fits l.state))
      (draw_lights-AllFit call.lights fb ind lights 16 0 hl (frame-fits l.state))
