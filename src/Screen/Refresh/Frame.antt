-- ===== src/Screen/Refresh/Frame.antt =====
-- A refresh leaves the cells as they were asked for, each in its region.
use lcdpico_34401a.Common.{
  ℕ, zero, suc, ◌+◌, ◌≤◌, ◌<◌, ◌≡◌, inl, inr, refl, sym, ap, ap₂, ◌∙◌, arith, Bool, false, ◌&&◌,
  List, [], ◌∷◌, length, get_or, ◌==◌, leb, if◌then◌else◌, Bool-cases,
}
use lcdpico_34401a.Screen.Cells.{Cell}
use lcdpico_34401a.Screen.Refresh.{Copy, draw_cell, must_draw, draw_cells}
use lcdpico_34401a.Screen.Refresh.Regions.{region, region-append, draw_cell-region, draw_cell-other}

-- Cells that need not be drawn again are the same.
pub same_cell : (force : Bool) (x y : Cell) → must_draw force x y ≡ false → x ≡ y
unfolding must_draw
same_cell force x y h =
    let char : x.c ≡ y.c = ground (arith, h) in
    let marks : x.flags ≡ y.flags = ground (arith, h) in
    let steady : x.blink ≡ y.blink = ground (arith, h) in cc

-- The state after a refresh is what was asked for.
pub draw_cells-cells :
    (image fb : ℕ) (clock : ℕ → ℕ) (force : Bool) (i : ℕ) (new old : List Cell)
    → length new ≡ length old
    → (draw_cells image fb clock force i new old).cells ≡ new
unfolding draw_cells
draw_cells-cells image fb clock force i [] [] h = refl
draw_cells-cells image fb clock force i [] (y ∷ old) h = absurd (omega (arith, h))
draw_cells-cells image fb clock force i (x ∷ new) [] h = absurd (omega (arith, h))
draw_cells-cells image fb clock force i (x ∷ new) (y ∷ old) h =
    elim (Bool-cases (must_draw force x y)) [
      | inl e ↦ rw e (
          ap (λ l. x ∷ l)
            (draw_cells-cells image fb clock force (suc i) new old (omega (arith, h))))
      | inr e ↦ rw e (
          ap₂ (λ (a : Cell) (l : List Cell). a ∷ l) (sym (same_cell force x y e))
            (draw_cells-cells image fb clock force (suc i) new old (omega (arith, h))))
    ]

-- Regions of the other frame, and of cells that are not drawn, stay.
pub draw_cells-other :
    (image fb gb : ℕ) (clock : ℕ → ℕ) (force : Bool) (i j : ℕ) (new old : List Cell)
    (before : List Copy)
    → i ≤ 11
    → j + length new ≤ 12
    → (gb == fb) && leb j i ≡ false
    → region fb i (draw_cells image gb clock force j new old).copies before ≡ before
unfolding draw_cells region
draw_cells-other image fb gb clock force i j [] old before hi room apart = refl
draw_cells-other image fb gb clock force i j (x ∷ new) [] before hi room apart = refl
draw_cells-other image fb gb clock force i j (x ∷ new) (y ∷ old) before hi room apart =
    let rest =
      draw_cells-other image fb gb clock force i (suc j) new old before hi (omega (arith, room))
        (ground (arith, apart)) in
    elim (Bool-cases (must_draw force x y)) [
      | inl e ↦ rw e (
          region-append fb i (draw_cell image gb (clock j) j x)
            (draw_cells image gb clock force (suc j) new old).copies before
          ∙ (ap (region fb i (draw_cells image gb clock force (suc j) new old).copies) (
                draw_cell-other image fb gb (clock j) i j x before hi (omega (arith, room))
                  (ground (arith, apart)))
              ∙ rest))
      | inr e ↦ rw e rest
    ]

-- Cell number `k` of a refresh from number `i` on: its region is drawn, or stays.
pub draw_cells-region :
    (image fb : ℕ) (clock : ℕ → ℕ) (force : Bool) (i j k : ℕ) (new old : List Cell)
    (before : List Copy) (e : Cell)
    → j ≡ i + k
    → length new ≡ length old
    → k < length new
    → i + length new ≤ 12
    → region fb j (draw_cells image fb clock force i new old).copies before ≡ (
        if must_draw force (get_or new k e) (get_or old k e)
        then draw_cell image fb (clock j) j (get_or new k e)
        else before)
unfolding draw_cells
draw_cells-region image fb clock force i j k [] old before e at same hk room =
    absurd (omega (arith, hk))
draw_cells-region image fb clock force i j k (x ∷ new) [] before e at same hk room =
    absurd (omega (arith, same))
draw_cells-region image fb clock force i j zero (x ∷ new) (y ∷ old) before e at same hk room =
    let stays =
      draw_cells-other image fb fb clock force j (suc i) new old before (omega (arith, room, at))
        (omega (arith, room)) (ground (arith, at)) in
    let here : i ≡ j = omega (arith, at) in
    elim (Bool-cases (must_draw force x y)) [
      | inl d ↦
          rw (here, d)
            (region-append fb j (draw_cell image fb (clock j) j x)
                (draw_cells image fb clock force (suc j) new old).copies before
              ∙ (draw_cells-other image fb fb clock force j (suc j) new old
                    (region fb j (draw_cell image fb (clock j) j x) before)
                    (omega (arith, room, at)) (omega (arith, room, at)) (ground arith)
                  ∙ draw_cell-region image fb (clock j) j x before))
      | inr d ↦ rw d stays
    ]
draw_cells-region image fb clock force i j (suc k) (x ∷ new) (y ∷ old) before e at same hk room =
    let later =
      draw_cells-region image fb clock force (suc i) j k new old before e (omega (arith, at))
        (omega (arith, same)) (omega (arith, hk)) (omega (arith, room)) in
    elim (Bool-cases (must_draw force x y)) [
      | inl d ↦ rw d (
          region-append fb j (draw_cell image fb (clock i) i x)
            (draw_cells image fb clock force (suc i) new old).copies before
          ∙ (ap (region fb j (draw_cells image fb clock force (suc i) new old).copies) (
                draw_cell-other image fb fb (clock i) j i x before (omega (arith, at, hk, room))
                  (omega (arith, room)) (ground (arith, at)))
              ∙ later))
      | inr d ↦ rw d later
    ]
