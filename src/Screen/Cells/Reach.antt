-- ===== src/Screen/Cells/Reach.antt =====
-- How far into the text the cells reach.

use lcdpico_34401a.Common.{
  ℕ, zero, suc, ◌+◌, ◌≤◌, ◌<◌, ◌≡◌, refl, sym, ap, ap₂, ◌∙◌, arith, true, List, [], ◌∷◌, ◌++◌,
  get_or, drop, length, Bool-cases, inl, inr,
}
use lcdpico_34401a.Decoder.State.{Display}
use lcdpico_34401a.Screen.Cells.{Cell, takes_mark, advance, cell_at, layout, cells_of}
use lcdpico_34401a.Screen.Cells.Text.{
  used, is_mark, marks, spelled_all, takes_mark-is_mark, drop-get_or, clamp-eq, advance-eq,
  used-early, layout-spelled,
}

marks-drop : (s : List ℕ) (d : ℕ) → d < length s → marks (drop (suc d) s) ≤ marks (drop d s)
unfolding marks
marks-drop s d h = ground (arith, ap marks (drop-get_or s d h))

marks-mark :
    (s : List ℕ) (d : ℕ)
    → d < length s
    → is_mark (get_or s d 0) ≡ true
    → marks (drop d s) ≡ suc (marks (drop (suc d) s))
unfolding marks
marks-mark s d h m = ap marks (drop-get_or s d h) ∙ rw m refl

-- A cell takes one character, and a second one only if that is a mark.
advance-marks :
    (s : List ℕ) (d : ℕ)
    → 16 ≤ length s
    → d ≤ 14
    → advance s d + marks (drop (advance s d) s) ≤ suc d + marks (drop d s)
advance-marks s d long h =
    let moves = advance-eq s d (omega (arith, h)) in
    let first = marks-drop s d (omega (arith, h, long)) in
    elim (Bool-cases (takes_mark (get_or s d 0) (get_or s (suc d) 0))) [
      | inl e ↦
          let m = takes_mark-is_mark (get_or s d 0) (get_or s (suc d) 0) e in
          let second = marks-mark s (suc d) (omega (arith, h, long)) m in
          rw (moves, e) (omega (arith, first, second))
      | inr e ↦ rw (moves, e) (omega (arith, first))
    ]

-- The cells end no later than their number and the number of marks allow.
used-marks :
    (s : List ℕ) (n d : ℕ)
    → 16 ≤ length s
    → n + d + marks (drop d s) ≤ 15
    → used s n d ≤ n + d + marks (drop d s)
unfolding used
used-marks s zero d long h = omega arith
used-marks s (suc n) d long h =
    let one = advance-marks s d long (omega (arith, h)) in
    let rest = used-marks s n (advance s d) long (omega (arith, h, one)) in omega (arith, rest, one)

get_or-left : (s x : List ℕ) (i : ℕ) → i < length s → get_or (s ++ x) i 0 ≡ get_or s i 0
get_or-left [] x i h = absurd (omega arith)
get_or-left (c ∷ s) x zero h = refl
get_or-left (c ∷ s) x (suc i) h = get_or-left s x i (omega (arith, h))

-- What stands behind the text does not matter to cells that end within it.
cell_at-left :
    (s x : List ℕ) (mask i d : ℕ)
    → 16 ≤ length s
    → d ≤ 14
    → (cell_at (s ++ x) mask i d ≡ cell_at s mask i d) × (advance (s ++ x) d ≡ advance s d)
unfolding cell_at advance
cell_at-left s x mask i d long h =
    let here = get_or-left s x d (omega (arith, h, long)) in
    let behind = get_or-left s x (suc d) (omega (arith, h, long)) in
    rw (clamp-eq d (omega (arith, h)), here, behind) (refl, refl)

layout-left :
    (s x : List ℕ) (mask n i d : ℕ)
    → 16 ≤ length s
    → used s n d ≤ 15
    → layout (s ++ x) mask n i d ≡ layout s mask n i d
unfolding layout used
layout-left s x mask zero i d long h = refl
layout-left s x mask (suc n) i d long h =
    let (same, moves) = cell_at-left s x mask i d long (used-early s n d h) in
    ap₂ (λ (a : Cell) (l : List Cell). a ∷ l) same
      (ap (layout (s ++ x) mask n (suc i)) moves
        ∙ layout-left s x mask n (suc i) (advance s d) long h)

-- If the line of 16 bytes has at most three points, commas and colons, the twelve cells of the
-- display spell the beginning of the line, marks included, and the layout reads nothing behind the
-- line: it is the same whatever the last reading is.
pub cells_of-spelled :
    (d : Display) (behind : List ℕ)
    → length d.main ≡ 16
    → marks d.main ≤ 3
    → (spelled_all (cells_of d) ++ drop (used d.main 12 0) d.main ≡ d.main)
      × (cells_of (record d { last_reading = behind }) ≡ cells_of d)
unfolding cells_of
cells_of-spelled d behind long few =
    let near : used d.main 12 0 ≤ 15 =
      let ends = used-marks d.main 12 0 (omega (arith, long)) (omega (arith, few)) in
      omega (arith, few, ends) in
    let long' : 16 ≤ length d.main = omega (arith, long) in
    let own = layout-left d.main d.last_reading d.blink_mask 12 0 0 long' near in
    let other = layout-left d.main behind d.blink_mask 12 0 0 long' near in
    (
      ap (λ l. spelled_all l ++ drop (used d.main 12 0) d.main) own
          ∙ layout-spelled d.main d.blink_mask 12 0 0 long' near,
      other ∙ sym own,
    )
