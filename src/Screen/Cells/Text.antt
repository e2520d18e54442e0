-- ===== src/Screen/Cells/Text.antt =====
-- What the cells show is the meter's text.
use mathlib.Core.List.{append_assoc}
use lcdpico_34401a.Common.{
  ℕ, zero, suc, ◌≤◌, ◌<◌, ◌≡◌, refl, sym, ap, ◌∙◌, arith, Bool, true, not, ◌||◌, List, [], ◌∷◌,
  ◌++◌, get_or, drop, length, ltb, ◌==◌, if◌then◌else◌, bit_and, ◌^◌, Bool-cases, inl, inr,
}
use lcdpico_34401a.Screen.Cells.{Cell, overlays, takes_mark, clamp, advance, cell_at, layout}

-- The mark that the flags stand for, or 0.
abbrev pub mark_of : ℕ → ℕ
mark_of f = if f == 1 then b'.' else if f == 2 then b',' else if f == 5 then b':' else 0

-- The text that a cell shows. A mark that is the cell's own character is the next cell's.
abbrev pub spelled : Cell → List ℕ
spelled x =
    if mark_of x.flags == 0 || mark_of x.flags == x.c then x.c ∷ [] else x.c ∷ mark_of x.flags ∷ []

abbrev pub spelled_all : List Cell → List ℕ
spelled_all [] = []
spelled_all (x ∷ xs) = spelled x ++ spelled_all xs

-- Where `n` cells from `d` on end in the text.
unfoldable pub used : List ℕ → ℕ → ℕ → ℕ
unfolding advance
used dmm zero d = d
used dmm (suc n) d = used dmm n (advance dmm d)

unfoldable pub is_mark : ℕ → Bool
is_mark c = c == b'.' || c == b',' || c == b':'

unfoldable pub marks : List ℕ → ℕ
unfolding is_mark
marks [] = 0
marks (c ∷ s) = let rest = marks s in if is_mark c then suc rest else rest

spelled-one :
    (c next : ℕ) (b : Bool)
    → spelled (record { c = c; flags = overlays next; blink = b })
      ≡ (if takes_mark c next then c ∷ next ∷ [] else c ∷ [])
unfolding overlays takes_mark
spelled-one c next b = ground arith

pub takes_mark-is_mark : (c next : ℕ) → takes_mark c next ≡ true → is_mark next ≡ true
unfolding takes_mark is_mark
takes_mark-is_mark c next h = ground (arith, h)

pub drop-get_or : (s : List ℕ) (d : ℕ) → d < length s → drop d s ≡ get_or s d 0 ∷ drop (suc d) s
drop-get_or [] d h = absurd (omega arith)
drop-get_or (c ∷ s) zero h = refl
drop-get_or (c ∷ s) (suc d) h = drop-get_or s d (omega (arith, h))

pub clamp-eq : (d : ℕ) → d ≤ 15 → clamp d ≡ d
clamp-eq d h = ground (arith, h)

pub advance-eq :
    (s : List ℕ) (d : ℕ)
    → d ≤ 15
    → advance s d ≡ (if takes_mark (get_or s d 0) (get_or s (suc d) 0) then suc (suc d) else suc d)
unfolding advance
advance-eq s d h = rw (clamp-eq d h) refl

advance-late : (s : List ℕ) (d : ℕ) → 15 ≤ d → 16 ≤ advance s d
unfolding advance
advance-late s d h = ground (arith, h)

used-late : (s : List ℕ) (n d : ℕ) → 16 ≤ d → 16 ≤ used s n d
unfolding used
used-late s zero d h = h
used-late s (suc n) d h = used-late s n (advance s d) (advance-late s d (omega (arith, h)))

-- A cell that is followed by others within the text begins before its last byte.
pub used-early : (s : List ℕ) (n d : ℕ) → used s (suc n) d ≤ 15 → d ≤ 14
unfolding used
used-early s n d h = elim (Bool-cases (ltb 14 d)) [
  | inl late ↦
      let far = used-late s n (advance s d) (advance-late s d (ground (arith, late))) in
      absurd (omega (arith, far, h))
  | inr early ↦ ground (arith, early)
]

-- One cell, and the text from where it ends.
cell_at-spelled :
    (s : List ℕ) (mask i d : ℕ)
    → 16 ≤ length s
    → d ≤ 14
    → spelled (cell_at s mask i d) ++ drop (advance s d) s ≡ drop d s
unfolding cell_at
cell_at-spelled s mask i d long h =
    let one = spelled-one (get_or s d 0) (get_or s (suc d) 0) (not (bit_and mask (2 ^ i) == 0)) in
    let here = drop-get_or s d (omega (arith, h, long)) in
    let behind = drop-get_or s (suc d) (omega (arith, h, long)) in
    let moves = advance-eq s d (omega (arith, h)) in
    let same = clamp-eq d (omega (arith, h)) in
    elim (Bool-cases (takes_mark (get_or s d 0) (get_or s (suc d) 0))) [
      | inl e ↦ rw (same, one, moves, e) (sym (here ∙ ap (λ w. get_or s d 0 ∷ w) behind))
      | inr e ↦ rw (same, one, moves, e) (sym here)
    ]

-- The cells spell the text, and the rest of the text follows.
pub layout-spelled :
    (s : List ℕ) (mask n i d : ℕ)
    → 16 ≤ length s
    → used s n d ≤ 15
    → spelled_all (layout s mask n i d) ++ drop (used s n d) s ≡ drop d s
unfolding layout used
layout-spelled s mask zero i d long h = refl
layout-spelled s mask (suc n) i d long h =
    let rest = layout-spelled s mask n (suc i) (advance s d) long h in
    let here = cell_at-spelled s mask i d long (used-early s n d h) in
    append_assoc (spelled (cell_at s mask i d))
      (spelled_all (layout s mask n (suc i) (advance s d))) (drop (used s n (advance s d)) s)
    ∙ (ap (λ w. spelled (cell_at s mask i d) ++ w) rest ∙ here)
