-- ===== src/Screen/Refresh/Regions.antt =====
-- What the copies leave in the region of a cell.

use mathlib.Core.List.{append_assoc, append-nil}
use lcdpico_34401a.Common.{
  ℕ, suc, ◌+◌, ◌^◌, ◌≤◌, ◌<◌, ◌≡◌, refl, sym, ap, ◌∙◌, arith, Bool, true, false, ◌&&◌, List, [],
  ◌∷◌, ◌++◌, ltb, leb, ◌==◌, if◌then◌else◌, bit_and, Bool-cases, inl, inr,
}
use lcdpico_34401a.Screen.Cells.{Cell}
use lcdpico_34401a.Screen.Theme.{char_x_offset, char_w, char_h, Overlay, char_overlays, tile_of}
use lcdpico_34401a.Screen.Refresh.{
  Copy, cell_y, is_dark, tile_copy, overlay_copy, overlay_copies, draw_cell,
}

-- The copy begins in the region of cell `i` of a frame.
unfoldable pub hits : ℕ → ℕ → Copy → Bool
hits fb i k =
    k.fb == fb && leb char_x_offset k.x && leb (cell_y i) k.y && ltb k.y (cell_y i + char_h)

-- The copy is as large as a cell.
abbrev pub covers : Copy → Bool
covers k = k.w == char_w && k.h == char_h

-- The copies that a region shows: a tile covers what was there, an overlay is added to it.
unfoldable pub onto : ℕ → ℕ → Copy → List Copy → List Copy
unfolding hits
onto fb i k old = if hits fb i k then (if covers k then k ∷ [] else old ++ (k ∷ [])) else old

unfoldable pub region : ℕ → ℕ → List Copy → List Copy → List Copy
unfolding onto
region fb i [] old = old
region fb i (k ∷ ks) old = region fb i ks (onto fb i k old)

pub region-append :
    (fb i : ℕ) (ks ls : List Copy) (old : List Copy)
    → region fb i (ks ++ ls) old ≡ region fb i ls (region fb i ks old)
unfolding region
region-append fb i [] ls old = refl
region-append fb i (k ∷ ks) ls old = region-append fb i ks ls (onto fb i k old)

hits-own :
    (fb i : ℕ) (k : Copy)
    → k.fb ≡ fb
    → 50 ≤ k.x
    → cell_y i ≤ k.y
    → k.y < cell_y i + 80
    → hits fb i k ≡ true
unfolding hits
hits-own fb i k e hx low high = ground (arith, e, hx, low, high)

-- A copy in the region of cell `j` of one frame is in no other region.
hits-other :
    (fb gb i j : ℕ) (k : Copy)
    → k.fb ≡ gb
    → cell_y j ≤ k.y
    → k.y < cell_y j + 80
    → i ≤ 11
    → j ≤ 11
    → (gb == fb) && (j == i) ≡ false
    → hits fb i k ≡ false
unfolding hits
hits-other fb gb i j k e low high hi hj ne = ground (arith, e, low, high, hi, hj, ne)

onto-tile :
    (image fb i tile : ℕ) (old : List Copy)
    → onto fb i (tile_copy image fb i tile) old ≡ tile_copy image fb i tile ∷ []
unfolding onto tile_copy
onto-tile image fb i tile old =
    rw (hits-own fb i (tile_copy image fb i tile) refl (omega arith) (omega arith) (omega arith))
      refl

-- An overlay lies within its cell's region, and does not cover it.
abbrev pub IsSmall : Overlay → Type 0
IsSmall o = (o.y < 80) × (o.w < 190)

onto-overlay :
    (image fb i : ℕ) (o : Overlay) (old : List Copy)
    → IsSmall o
    → onto fb i (overlay_copy image fb i o) old ≡ old ++ (overlay_copy image fb i o ∷ [])
unfolding onto overlay_copy
onto-overlay image fb i o old (short, narrow) =
    let own =
      hits-own fb i (overlay_copy image fb i o) refl (omega arith) (omega arith)
        (omega (arith, short)) in
    let small : (o.w == 190 && o.h == 80) ≡ false = ground (arith, narrow) in rw (own, small) refl

onto-other :
    (fb gb i j : ℕ) (k : Copy) (old : List Copy)
    → k.fb ≡ gb
    → cell_y j ≤ k.y
    → k.y < cell_y j + 80
    → i ≤ 11
    → j ≤ 11
    → (gb == fb) && (j == i) ≡ false
    → onto fb i k old ≡ old
unfolding onto
onto-other fb gb i j k old e low high hi hj ne =
    rw (hits-other fb gb i j k e low high hi hj ne) refl

abbrev AllSmall : List Overlay → Type 0
AllSmall [] = Unit
AllSmall (o ∷ os) = IsSmall o × AllSmall os

overlays-onto :
    (image fb i flags n : ℕ) (os : List Overlay) (old : List Copy)
    → AllSmall os
    → region fb i (overlay_copies image fb i flags n os) old
      ≡ old ++ overlay_copies image fb i flags n os
unfolding region overlay_copies
overlays-onto image fb i flags n [] old h = sym (append-nil old)
overlays-onto image fb i flags n (o ∷ os) old (small, h) =
    elim (Bool-cases (bit_and flags (2 ^ n) == 0)) [
      | inl e ↦ rw e (overlays-onto image fb i flags (suc n) os old h)
      | inr e ↦
          let k : Copy = overlay_copy image fb i o in
          let rest : List Copy = overlay_copies image fb i flags (suc n) os in
          rw e (
            overlays-onto image fb i flags (suc n) os (onto fb i k old) h
            ∙ (ap (λ l. l ++ rest) (onto-overlay image fb i o old small)
                ∙ append_assoc old (k ∷ []) rest))
    ]

overlays-other :
    (image fb gb i j flags n : ℕ) (os : List Overlay) (old : List Copy)
    → AllSmall os
    → i ≤ 11
    → j ≤ 11
    → (gb == fb) && (j == i) ≡ false
    → region fb i (overlay_copies image gb j flags n os) old ≡ old
unfolding region overlay_copies
overlays-other image fb gb i j flags n [] old h hi hj ne = refl
overlays-other image fb gb i j flags n (o ∷ os) old ((short, narrow), h) hi hj ne =
    elim (Bool-cases (bit_and flags (2 ^ n) == 0)) [
      | inl e ↦ rw e (overlays-other image fb gb i j flags (suc n) os old h hi hj ne)
      | inr e ↦
          let k : Copy = overlay_copy image gb j o in
          rw e (
            overlays-other image fb gb i j flags (suc n) os (onto fb i k old) h hi hj ne
            ∙ onto-other fb gb i j k old refl (omega arith) (omega (arith, short)) hi hj ne)
    ]

small_overlays : AllSmall char_overlays
small_overlays =
    ((omega arith, omega arith), ((omega arith, omega arith), ((omega arith, omega arith), tt)))

-- A drawn cell fills its region, whatever was there, and touches no other.
pub draw_cell-region :
    (image fb now i : ℕ) (x : Cell) (old : List Copy)
    → region fb i (draw_cell image fb now i x) old ≡ draw_cell image fb now i x
unfolding region draw_cell tile_copy
draw_cell-region image fb now i x old =
    let c : ℕ = if is_dark x now then tile_of b' ' else tile_of x.c in
    ap (region fb i (overlay_copies image fb i x.flags 0 char_overlays))
      (onto-tile image fb i c old)
    ∙ overlays-onto image fb i x.flags 0 char_overlays (tile_copy image fb i c ∷ []) small_overlays

pub draw_cell-other :
    (image fb gb now i j : ℕ) (x : Cell) (old : List Copy)
    → i ≤ 11
    → j ≤ 11
    → (gb == fb) && (j == i) ≡ false
    → region fb i (draw_cell image gb now j x) old ≡ old
unfolding region draw_cell tile_copy
draw_cell-other image fb gb now i j x old hi hj ne =
    let c : ℕ = if is_dark x now then tile_of b' ' else tile_of x.c in
    overlays-other image fb gb i j x.flags 0 char_overlays (onto fb i (tile_copy image gb j c) old)
      small_overlays hi hj ne
    ∙ onto-other fb gb i j (tile_copy image gb j c) old refl (omega arith) (omega arith) hi hj ne
