-- ===== src/Screen/Theme.antt =====
-- The theme of the display, src/img/240x960/nixie-theme.h, and the table of tiles that `init_theme`
-- builds from it.
pub mod Tiles
use lcdpico_34401a.Common.{
  ℕ, suc, ◌+◌, ◌≡◌, refl, true, Bool, List, [], ◌∷◌, ◌++◌, get_or, set, replicate, ◌==◌, tolower,
  codes, if◌then◌else◌,
}

abbrev pub char_x_offset : ℕ
char_x_offset = 50

abbrev pub char_w : ℕ
char_w = 190

abbrev pub char_h : ℕ
char_h = 80

abbrev pub char_map_w : ℕ
char_map_w = 4

abbrev pub char_blank_idx : ℕ
char_blank_idx = 53

-- `display_chars`
abbrev pub display_chars : List ℕ
display_chars = codes "0123456789ABCDEFGHIJKLMNOPQRSTUVWXYZdkmnz!?'-^#/+=<>_ "

-- `struct lcd_char_overlay`
pub record Overlay : Type 0 where
  pub tile : ℕ
  pub x : ℕ
  pub y : ℕ
  pub w : ℕ
  pub h : ℕ

abbrev overlay : ℕ → ℕ → ℕ → ℕ → ℕ → Overlay
overlay tile x y w h = record { tile = tile; x = x; y = y; w = w; h = h }

-- `display_char_overlays`: the point, the comma and the dot.
abbrev pub char_overlays : List Overlay
char_overlays = overlay 54 140 4 20 8 ∷ overlay 55 140 4 24 12 ∷ overlay 55 60 4 20 8 ∷ []

-- One character of the theme takes its own entry, and that of its small letter if that is free.
unfoldable pub add_char : ℕ → ℕ → List ℕ → List ℕ
add_char c i map =
    let own : List ℕ = set map c i in
    if get_or own (tolower c) 0 == char_blank_idx then set own (tolower c) i else own

unfoldable pub add_chars : List ℕ → ℕ → List ℕ → List ℕ
unfolding add_char
add_chars [] i map = map
add_chars (c ∷ cs) i map = add_chars cs (suc i) (add_char c i map)

-- `display_tile_map`, as `init_theme` leaves it.
unfoldable pub tile_map : List ℕ
unfolding add_chars
tile_map = add_chars display_chars 0 (replicate 256 char_blank_idx)

-- The tile of a character.
abbrev pub tile_of : ℕ → ℕ
tile_of c = get_or tile_map c 0

-- `struct lcd_indicator`. A height of -1 is written 0 here: neither is greater than 0.
pub record Indicator : Type 0 where
  pub tile : ℕ
  pub h : ℕ
  pub y : ℕ
  pub mode : ℕ

abbrev light : ℕ → ℕ → ℕ → ℕ → Indicator
light tile h y mode = record { tile = tile; h = h; y = y; mode = mode }

abbrev pub ind_w : ℕ
ind_w = 38

abbrev pub ind_h : ℕ
ind_h = 80

abbrev pub ind_map_w : ℕ
ind_map_w = 8

abbrev pub indicator_blank : ℕ
indicator_blank = 15

-- `lcd_indicator_map`: the light for each bit of the annunciators.
abbrev pub indicator_map : List ℕ
indicator_map = 14 ∷ 0 ∷ 1 ∷ 2 ∷ 3 ∷ 4 ∷ 5 ∷ 6 ∷ 7 ∷ 8 ∷ 9 ∷ 10 ∷ 11 ∷ 12 ∷ 13 ∷ 15 ∷ []

-- `display_indicators`. The last one, which is blank, is never drawn.
abbrev pub indicators : List Indicator
indicators =
    light 0 0 788 0
    ∷ light 1 0 708 0
    ∷ light 2 0 628 0
    ∷ light 3 0 548 1
    ∷ light 4 0 548 2
    ∷ light 5 0 468 0
    ∷ light 6 0 388 0
    ∷ light 7 0 308 0
    ∷ light 8 0 68 0
    ∷ light 9 0 228 0
    ∷ light 10 0 148 0
    ∷ light 11 64 0 1
    ∷ light 12 64 0 2
    ∷ light 13 64 0 2
    ∷ light 14 64 896 0
    ∷ light 15 0 0 0
    ∷ []

abbrev pub no_indicator : Indicator
no_indicator = light 15 0 0 0
