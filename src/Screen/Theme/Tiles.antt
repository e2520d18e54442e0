-- ===== src/Screen/Theme/Tiles.antt =====
-- The tile of every character.
use lcdpico_34401a.Common.{
  ℕ, suc, ◌-◌, ◌<◌, ◌≡◌, refl, true, ◌&&◌, List, [], ◌∷◌, leb, ◌==◌, if◌then◌else◌, ==_iff, Option,
  none, some,
}
use lcdpico_34401a.Scanner.Simulation.{each_below}
use lcdpico_34401a.Scanner.Simulation.Labels.{each_below-all}
use lcdpico_34401a.Screen.Theme.{display_chars, char_blank_idx, tile_map, tile_of}

-- The place of a character in the theme.
abbrev place_from : List ℕ → ℕ → ℕ → Option ℕ
place_from [] i c = none
place_from (d ∷ ds) i c = let later = place_from ds (suc i) c in if d == c then some i else later

abbrev or_else : Option ℕ → Option ℕ → Option ℕ
or_else none o = o
or_else (some i) o = some i

abbrev capital : ℕ → ℕ
capital c = if leb b'a' c && leb c b'z' then c - 32 else c

abbrev or_blank : Option ℕ → ℕ
or_blank none = char_blank_idx
or_blank (some i) = i

-- A character's own glyph, or else its capital's, or else the blank one.
abbrev pub glyph_of : ℕ → ℕ
glyph_of c =
    or_blank (or_else (place_from display_chars 0 c) (place_from display_chars 0 (capital c)))

agrees : each_below 256 (λ c. tile_of c == glyph_of c) ≡ true
unfolding each_below tile_map
agrees = refl

-- Every byte is shown with its own glyph of the theme, a letter without one with its capital's, and
-- anything else as a blank.
pub tile_of-glyph : (c : ℕ) → c < 256 → tile_of c ≡ glyph_of c
tile_of-glyph c h =
    (==_iff (tile_of c) (glyph_of c)).0
      (each_below-all 256 (λ x. tile_of x == glyph_of x) c agrees h)
