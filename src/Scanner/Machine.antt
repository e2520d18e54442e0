-- ===== src/Scanner/Machine.antt =====
-- The kind of code that re2c writes: labelled blocks with `goto`, a cursor into the line and a
-- marker to go back to. A line is a C string without its terminator, which reads as 0; a read
-- behind it is a fault.
use lcdpico_34401a.Common.{
  ℕ, zero, suc, ◌+◌, ◌-◌, Bool, false, ◌&&◌, ◌||◌, List, [], ◌∷◌, ltb, leb, ◌==◌, get_or, drop,
  if◌then◌else◌, Option, none, some,
}

-- `case 'a':` and `case 'a' ... 'z':`
pub data Case : Type 0 where
  byte : ℕ → Case
  range : ℕ → ℕ → Case

-- The cases of a `switch` that share a `goto`.
pub record Arm : Type 0 where
  pub cases : List Case
  pub target : ℕ

abbrev pub to : ℕ → List Case → Arm
to target cases = record { cases = cases; target = target }

-- What stands at a label. `read` moves on, loads the byte and switches; `mark` also sets the
-- marker; `look` switches on the byte that is loaded; `rewind` goes back to the marker, `skip` moves
-- on, and both go on at a label; `give` returns, and `skip_give` moves on first.
pub data Block : Type 0 where
  read mark look : List Arm → ℕ → Block
  rewind skip : ℕ → Block
  give skip_give : Bool → Block

-- The first `switch`, and the blocks from label `base` on.
pub record Program : Type 0 where
  pub arms : List Arm
  pub default : ℕ
  pub base : ℕ
  pub blocks : List Block

unfoldable pub is_case : ℕ → List Case → Bool
is_case c [] = false
is_case c (byte b ∷ ks) = c == b || is_case c ks
is_case c (range lo hi ∷ ks) = leb lo c && leb c hi || is_case c ks

-- `switch (yych)`
unfoldable pub select : List Arm → ℕ → ℕ → ℕ
unfolding is_case
select [] default c = default
select (arm ∷ arms) default c =
    let rest = select arms default c in if is_case c arm.cases then arm.target else rest

pub record Config : Type 0 where
  pub label : ℕ
  pub yych : ℕ
  pub cursor : List ℕ
  pub marker : Option (List ℕ)

-- A fault is a read behind the terminator, a marker that was not set, or a label that is not there.
pub data Outcome : Type 0 where
  go : Config → Outcome
  done : Bool → Outcome
  fault : Outcome

abbrev pub first : List ℕ → ℕ
first s = get_or s 0 0

unfoldable pub go_back : ℕ → Config → Option (List ℕ) → Outcome
go_back t c none = fault
go_back t c (some m) = go (record c { label = t; cursor = m })

-- `*++YYCURSOR`: where the cursor is at the terminator, that reads behind it.
unfoldable pub read_next : (List ℕ → Outcome) → List ℕ → Outcome
read_next load [] = fault
read_next load (b ∷ s) = load s

unfoldable pub exec : Block → Config → Outcome
unfolding select go_back read_next
exec (read arms default) c =
    read_next
      (λ s. go (record c { label = select arms default (first s); yych = first s; cursor = s }))
      c.cursor
exec (mark arms default) c =
    read_next
      (λ s. go (record {
        label = select arms default (first s);
        yych = first s;
        cursor = s;
        marker = some s;
      }))
      c.cursor
exec (look arms default) c = go (record c { label = select arms default c.yych })
exec (rewind t) c = go_back t c c.marker
exec (skip t) c = go (record c { label = t; cursor = drop 1 c.cursor })
exec (give b) c = done b
exec (skip_give b) c = done b

-- The block at a label, if there is one.
unfoldable pub get_block : List Block → ℕ → Option Block
get_block [] i = none
get_block (b ∷ bs) zero = some b
get_block (b ∷ bs) (suc i) = get_block bs i

unfoldable pub block_at : Program → ℕ → Option Block
unfolding get_block
block_at p l = if ltb l p.base then none else get_block p.blocks (l - p.base)

unfoldable pub exec_at : Option Block → Config → Outcome
unfolding exec
exec_at none c = fault
exec_at (some b) c = exec b c

-- What an outcome leads to, where `later` runs on.
unfoldable pub resume : (Config → Option Bool) → Outcome → Option Bool
resume later (go c) = later c
resume later (done b) = some b
resume later fault = none

-- A run for at most `fuel` blocks. `none` is a fault, or too little fuel.
unfoldable pub run : Program → ℕ → Config → Option Bool
unfolding resume exec_at block_at
run p zero c = none
run p (suc fuel) c = resume (run p fuel) (exec_at (block_at p c.label) c)

-- The function's start. The marker is not set.
unfoldable pub start : Program → List ℕ → Config
unfolding select
start p s = record {
  label = select p.arms p.default (first s);
  yych = first s;
  cursor = s;
  marker = none;
}

-- Six blocks for a byte and for the terminator: one that reads it, and five that go on from there.
abbrev pub fuel_for : List ℕ → ℕ
fuel_for [] = 6
fuel_for (c ∷ s) = 6 + fuel_for s

unfoldable pub scan : Program → List ℕ → Option Bool
unfolding start
scan p s = run p (fuel_for s) (start p s)
