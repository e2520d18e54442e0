-- ===== src/Scanner/Simulation.antt =====
-- A check by evaluation that a program follows the matcher: every block that reads a byte has
-- alternatives that fit, and every `switch` moves to a block whose alternatives are those that the
-- byte leaves.
pub mod Runs
pub mod Moves
pub mod Same
pub mod Labels
pub mod Agree
use lcdpico_34401a.Common.{
  ℕ, zero, suc, ◌<◌, ◌≡◌, refl, arith, Bool, true, false, not, ◌&&◌, ◌||◌, List, [], ◌∷◌, all, ◌==◌,
  if◌then◌else◌, Option, none, some,
}
use lcdpico_34401a.Scanner.Regex.{Class, Regex, eps, one, many, seq, alt}
use lcdpico_34401a.Scanner.Regex.Prefixes.{Expect, accepted, awaits, next}
use lcdpico_34401a.Scanner.Machine.{
  Arm, Block, read, mark, look, rewind, skip, give, skip_give, Program, select, block_at,
}

-- Where blocks that read nothing lead: to a block that reads, or to a return.
pub data Outlook : Type 0 where
  reads : ℕ → Outlook
  ends : Bool → Outlook
  stuck : Outlook

-- From a block that moves the cursor: only a return may follow. `marks` says that the marker is set.
unfoldable pub ending_of : (ℕ → Outlook) → Bool → Option Block → Outlook
ending_of later marks none = stuck
ending_of later marks (some (read arms d)) = stuck
ending_of later marks (some (mark arms d)) = stuck
ending_of later marks (some (look arms d)) = stuck
ending_of later marks (some (rewind t)) = if marks then later t else stuck
ending_of later marks (some (skip t)) = later t
ending_of later marks (some (give b)) = ends b
ending_of later marks (some (skip_give b)) = ends b

unfoldable pub ending : Program → Bool → ℕ → ℕ → Outlook
unfolding ending_of block_at
ending p marks zero l = stuck
ending p marks (suc n) l = ending_of (ending p marks n) marks (block_at p l)

unfoldable pub resolve_of : (ℕ → Outlook) → (ℕ → Outlook) → Bool → ℕ → ℕ → Option Block → Outlook
unfolding select
resolve_of later last marks l y none = stuck
resolve_of later last marks l y (some (read arms d)) = reads l
resolve_of later last marks l y (some (mark arms d)) = reads l
resolve_of later last marks l y (some (look arms d)) = later (select arms d y)
resolve_of later last marks l y (some (rewind t)) = if marks then last t else stuck
resolve_of later last marks l y (some (skip t)) = last t
resolve_of later last marks l y (some (give b)) = ends b
resolve_of later last marks l y (some (skip_give b)) = ends b

unfoldable pub resolve : Program → Bool → ℕ → ℕ → ℕ → Outlook
unfolding resolve_of ending
resolve p marks zero l y = stuck
resolve p marks (suc n) l y =
    resolve_of (λ t. resolve p marks n t y) (ending p marks n) marks l y (block_at p l)

-- Equality of expressions, by evaluation.
unfoldable pub class_eq : Class → Class → Bool
class_eq [] [] = true
class_eq [] (r ∷ k) = false
class_eq (r ∷ k) [] = false
class_eq ((a, b) ∷ k) ((c, d) ∷ m) = a == c && b == d && class_eq k m

unfoldable pub regex_eq : Regex → Regex → Bool
unfolding class_eq
regex_eq eps eps = true
regex_eq (one k) (one m) = class_eq k m
regex_eq (many k) (many m) = class_eq k m
regex_eq (seq r t) (seq q u) = regex_eq r q && regex_eq t u
regex_eq (alt r t) (alt q u) = regex_eq r q && regex_eq t u
regex_eq r t = false

unfoldable pub contains : List Regex → Regex → Bool
unfolding regex_eq
contains [] r = false
contains (t ∷ ts) r = regex_eq t r || contains ts r

-- The same alternatives, in any order and as often as may be.
unfoldable pub expect_eq : Expect → Expect → Bool
unfolding contains
expect_eq accepted accepted = true
expect_eq accepted (awaits ts) = false
expect_eq (awaits rs) accepted = false
expect_eq (awaits rs) (awaits ts) = all (contains ts) rs && all (contains rs) ts

abbrev pub is_accepted : Expect → Bool
is_accepted accepted = true
is_accepted (awaits rs) = false

-- No alternative is left.
abbrev pub is_dead : Expect → Bool
is_dead accepted = false
is_dead (awaits []) = true
is_dead (awaits (r ∷ rs)) = false

-- What is expected at the labels that read a byte, and whether the marker is set there.
pub record Guide : Type 0 where
  pub fits : ℕ → Expect
  pub needs : ℕ → Bool

-- The expectation behind a text.
abbrev pub fits_after : List ℕ → Expect → Expect
fits_after [] e = e
fits_after (c ∷ s) e = fits_after s (next c e)

-- `here` before the byte, `there` behind it, against what the code does.
unfoldable pub agrees : Guide → Bool → Expect → Expect → Outlook → Bool
unfolding expect_eq
agrees g marks here there (reads l) = (not (g.needs l) || marks) && expect_eq there (g.fits l)
agrees g marks here there (ends true) = is_accepted here
agrees g marks here there (ends false) = not (is_accepted here) && is_dead there
agrees g marks here there stuck = false

-- The same at the end of the line.
unfoldable pub agrees_at_end : Expect → Outlook → Bool
agrees_at_end here (reads l) = false
agrees_at_end here (ends true) = is_accepted here
agrees_at_end here (ends false) = not (is_accepted here)
agrees_at_end here stuck = false

unfoldable pub each_below : ℕ → (ℕ → Bool) → Bool
each_below zero p = true
each_below (suc n) p = p n && each_below n p

-- Every byte, and the end of the line, from a `switch` behind `here`.
unfoldable pub switch_agrees : Program → Guide → Bool → Expect → List Arm → ℕ → Bool
unfolding each_below agrees agrees_at_end resolve next select
switch_agrees p g marks here arms d =
    each_below 256 (λ c. agrees g marks here (next c here) (resolve p marks 5 (select arms d c) c))
    && agrees_at_end here (resolve p marks 5 (select arms d 0) 0)

unfoldable pub block_agrees : Program → Guide → ℕ → Option Block → Bool
unfolding switch_agrees
block_agrees p g l none = true
block_agrees p g l (some (read arms d)) = switch_agrees p g (g.needs l) (g.fits l) arms d
block_agrees p g l (some (mark arms d)) = switch_agrees p g true (g.fits l) arms d
block_agrees p g l (some (look arms d)) = true
block_agrees p g l (some (rewind t)) = true
block_agrees p g l (some (skip t)) = true
block_agrees p g l (some (give b)) = true
block_agrees p g l (some (skip_give b)) = true

-- The whole program: its first `switch`, and the blocks at the labels.
abbrev pub Follows : Program → Guide → Expect → Type 0
Follows p g e =
    (switch_agrees p g false e p.arms p.default ≡ true)
    × ((l : ℕ) → block_agrees p g l (block_at p l) ≡ true)
