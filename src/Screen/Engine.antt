-- ===== src/Screen/Engine.antt =====
-- The copies of `update_display` as jobs of the LCD controller: each fits its registers.
pub mod Whole
pub mod Refinement
use lcdpico_34401a.Common.{
  ℕ, zero, suc, ◌+◌, ◌-◌, ◌*◌, ◌/◌, ◌%◌, ◌<◌, ◌≤◌, ◌≡◌, refl, arith, Bool, true, false, not, ◌&&◌,
  Bool-cases, inl, inr, List, [], ◌∷◌, ◌++◌, get_or, all, leb, ltb, ◌==◌, if◌then◌else◌, Option,
  none, some, bit_and, ◌^◌,
}
use lcdpico_34401a.Screen.Cells.{Cell}
use lcdpico_34401a.Screen.Theme.{
  char_w, char_h, char_map_w, char_x_offset, Overlay, char_overlays, tile_map, tile_of, add_chars,
  add_char, Indicator, indicators, no_indicator, indicator_map, indicator_blank, ind_w, ind_h,
  ind_map_w,
}
use lcdpico_34401a.Screen.Refresh.{
  Copy, layer1, layer2, frame_of, cell_y, is_dark, tile_copy, overlay_copy, overlay_copies,
  draw_cell, must_draw, Drawn, draw_cells,
}
use lcdpico_34401a.Screen.Update.{
  Lcd, Call, indicator_at, light_copy, is_lit, draw_light, draw_lights, refresh, update_copies,
}
use lcdpico_34401a.Graphics.Jobs.{Place, Job, Fits, JobFits}

-- A copy that fits the registers.
pub record CopyFits (k : Copy) : Type 0 where
  pub fb_fits : k.fb < 4294967296
  pub x_fits : k.x < 8192
  pub y_fits : k.y < 8192
  pub image_fits : k.image < 4294967296
  pub tile_x_fits : k.tile_x < 8192
  pub tile_y_fits : k.tile_y < 8192
  pub w_fits : k.w < 8192
  pub h_fits : k.h < 8192

abbrev pub AllFit : List Copy → Type 0
AllFit [] = Unit
AllFit (k ∷ ks) = CopyFits k × AllFit ks

pub AllFit-append : (ks ls : List Copy) → AllFit ks → AllFit ls → AllFit (ks ++ ls)
AllFit-append [] ls h g = g
AllFit-append (k ∷ ks) ls (h, more) g = (h, AllFit-append ks ls more g)

-- A table's entries are small, and so is what is read from it.
get_or-le : (xs : List ℕ) (b i : ℕ) → all (λ x. leb x b) xs ≡ true → get_or xs i 0 ≤ b
get_or-le [] b i h = omega arith
get_or-le (x ∷ xs) b zero h = elim (Bool-cases (leb x b)) [
  | inl e ↦ ground arith
  | inr e ↦ absurd (ground arith)
]
get_or-le (x ∷ xs) b (suc i) h = elim (Bool-cases (leb x b)) [
  | inl e ↦ get_or-le xs b i (rw e at h)
  | inr e ↦ absurd (ground arith)
]

tile_of-le : (c : ℕ) → tile_of c ≤ 53
unfolding tile_map add_chars add_char
tile_of-le c = get_or-le tile_map 53 c refl

abbrev SmallOverlays : List Overlay → Type 0
SmallOverlays [] = Unit
SmallOverlays (o ∷ os) =
    ((o.tile < 100) × (o.x < 200) × (o.y < 100) × (o.w < 200) × (o.h < 100)) × SmallOverlays os

tile_copy-CopyFits :
    (image fb i tile : ℕ)
    → image < 4294967296
    → fb < 4294967296
    → tile ≤ 53
    → CopyFits (tile_copy image fb i tile)
unfolding tile_copy
tile_copy-CopyFits image fb i tile hi hf ht = record {
  fb_fits = hf;
  x_fits = omega arith;
  y_fits = omega arith;
  image_fits = hi;
  tile_x_fits = omega arith;
  tile_y_fits = omega arith;
  w_fits = omega arith;
  h_fits = omega arith;
}

overlay_copies-AllFit :
    (image fb i flags n : ℕ) (os : List Overlay)
    → image < 4294967296
    → fb < 4294967296
    → SmallOverlays os
    → AllFit (overlay_copies image fb i flags n os)
unfolding overlay_copies
overlay_copies-AllFit image fb i flags n [] hi hf h = tt
overlay_copies-AllFit image fb i flags n (o ∷ os) hi hf ((t, x, y, w, g), more) =
    let rest = overlay_copies-AllFit image fb i flags (suc n) os hi hf more in
    let own : CopyFits (overlay_copy image fb i o) = record {
      fb_fits = hf;
      x_fits = omega arith;
      y_fits = omega arith;
      image_fits = hi;
      tile_x_fits = omega arith;
      tile_y_fits = omega arith;
      w_fits = omega arith;
      h_fits = omega arith;
    } in
    elim (Bool-cases (bit_and flags (2 ^ n) == 0)) [ inl e ↦ rw e rest | inr e ↦ rw e (own, rest) ]

draw_cell-AllFit :
    (image fb now i : ℕ) (cell : Cell)
    → image < 4294967296
    → fb < 4294967296
    → AllFit (draw_cell image fb now i cell)
unfolding draw_cell
draw_cell-AllFit image fb now i cell hi hf =
    let overlays = overlay_copies-AllFit image fb i cell.flags 0 char_overlays hi hf (
      (omega arith, omega arith, omega arith, omega arith, omega arith),
      (
        (omega arith, omega arith, omega arith, omega arith, omega arith),
        ((omega arith, omega arith, omega arith, omega arith, omega arith), tt),
      ),
    ) in
    elim (Bool-cases (is_dark cell now)) [
      | inl e ↦
          rw e (tile_copy-CopyFits image fb i (tile_of b' ') hi hf (tile_of-le b' '), overlays)
      | inr e ↦
          rw e (tile_copy-CopyFits image fb i (tile_of cell.c) hi hf (tile_of-le cell.c), overlays)
    ]

pub draw_cells-AllFit :
    (image fb : ℕ) (clock : ℕ → ℕ) (force : Bool) (i : ℕ) (new old : List Cell)
    → image < 4294967296
    → fb < 4294967296
    → AllFit (draw_cells image fb clock force i new old).copies
unfolding draw_cells
draw_cells-AllFit image fb clock force i [] old hi hf = tt
draw_cells-AllFit image fb clock force i (x ∷ new) [] hi hf = tt
draw_cells-AllFit image fb clock force i (x ∷ new) (y ∷ old) hi hf =
    let rest = draw_cells-AllFit image fb clock force (suc i) new old hi hf in
    elim (Bool-cases (must_draw force x y)) [
      | inl e ↦ rw e (
          AllFit-append (draw_cell image fb (clock i) i x)
            (draw_cells image fb clock force (suc i) new old).copies
            (draw_cell-AllFit image fb (clock i) i x hi hf) rest)
      | inr e ↦ rw e rest
    ]
