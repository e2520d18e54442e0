-- ===== src/Screen/Update/Frames.antt =====
-- The two frames over many calls of `update_display`.
use mathlib.Core.Path.{subst}
use lcdpico_34401a.Common.{
  ℕ, ◌-◌, ◌≡◌, inl, inr, refl, sym, ap, ◌∙◌, arith, Bool, true, false, ◌||◌, List, length, ltb,
  ◌==◌, ◌%◌, if◌then◌else◌, Bool-cases,
}
use lcdpico_34401a.Screen.Cells.{Cell}
use lcdpico_34401a.Screen.Refresh.{layer1, layer2, frame_of}
use lcdpico_34401a.Screen.Refresh.Frame.{draw_cells-cells}
use lcdpico_34401a.Screen.Update.{
  Lcd, cells_in, store, flip, note_time, Call, refresh, update_copies, update_display,
}
use lcdpico_34401a.Screen.Update.Shows.{
  Memory, painted, Shows, ShowsAt, InStep, refresh-ShowsAt, update-region, refresh-other,
  ShowsAt-same, Shows-same, any_time,
}

-- Fields that the measurement of the time leaves.
record SameFrames (l l' : Lcd) : Type 0 where
  state : l'.state ≡ l.state
  cells0 : l'.cells0 ≡ l.cells0
  cells1 : l'.cells1 ≡ l.cells1
  misa : l'.misa ≡ l.misa

note_time-same : (delta : ℕ) (l : Lcd) → SameFrames l (note_time delta l)
unfolding note_time
note_time-same delta l = elim (Bool-cases (ltb l.max_delta delta)) [
  | inl a ↦ elim (Bool-cases (ltb delta l.min_delta || l.min_delta == 0)) [
    | inl b ↦ rw (a, b) record { state = refl; cells0 = refl; cells1 = refl; misa = refl }
    | inr b ↦ rw (a, b) record { state = refl; cells0 = refl; cells1 = refl; misa = refl }
  ]
  | inr a ↦ elim (Bool-cases (ltb delta l.min_delta || l.min_delta == 0)) [
    | inl b ↦ rw (a, b) record { state = refl; cells0 = refl; cells1 = refl; misa = refl }
    | inr b ↦ rw (a, b) record { state = refl; cells0 = refl; cells1 = refl; misa = refl }
  ]
]

refresh-cells :
    (call : Call) (force : Bool) (new : List Cell) (l : Lcd)
    → length new ≡ 12
    → length (cells_in l l.state) ≡ 12
    → (refresh call force new l).cells ≡ new
unfolding refresh
refresh-cells call force new l hn ho =
    draw_cells-cells call.characters (frame_of l.state) call.clock force 0 new (cells_in l l.state)
      (hn ∙ sym ho)

-- What a call leaves of the static variables, for each frame that it may draw.
record Stored (new : List Cell) (l l' : Lcd) : Type 0 where
  misa : l'.misa ≡ frame_of l.state
  state : l'.state ≡ (if l.state == 0 then 1 else 0)
  cells0 : l'.cells0 ≡ (if l.state == 0 then new else l.cells0)
  cells1 : l'.cells1 ≡ (if l.state == 0 then l.cells1 else new)

flip-store : (cells : List Cell) (ind : ℕ) (l : Lcd) → Stored cells l (flip (store cells ind l))
unfolding store flip
flip-store cells ind l = elim (Bool-cases (l.state == 0)) [
  | inl e ↦
      rw e record { misa = rw e refl; state = rw e refl; cells0 = rw e refl; cells1 = rw e refl }
  | inr e ↦
      rw e record { misa = rw e refl; state = rw e refl; cells0 = rw e refl; cells1 = rw e refl }
]

update-Stored :
    (call : Call) (force : Bool) (new : List Cell) (ind : ℕ) (l : Lcd)
    → length new ≡ 12
    → length (cells_in l l.state) ≡ 12
    → Stored new l (update_display call force new ind l)
unfolding update_display
update-Stored call force new ind l hn ho =
    let cells : List Cell = (refresh call force new l).cells in
    let flipped : Lcd = flip (store cells (ind % 65536) l) in
    let same = note_time-same call.delta flipped in
    let drawn = refresh-cells call force new l hn ho in
    let stored : Stored new l flipped =
      subst (λ x. Stored x l flipped) drawn (flip-store cells (ind % 65536) l) in
    record {
      misa = same.misa ∙ stored.misa;
      state = same.state ∙ stored.state;
      cells0 = same.cells0 ∙ stored.cells0;
      cells1 = same.cells1 ∙ stored.cells1;
    }

-- The frame that is drawn shows the new cells, and the other one stays.
drawn-ShowsAt :
    (call : Call) (force : Bool) (new : List Cell) (ind : ℕ) (l : Lcd) (mem : Memory)
    → length new ≡ 12
    → length (cells_in l l.state) ≡ 12
    → Shows call.characters mem (frame_of l.state) (cells_in l l.state)
    → ShowsAt call.characters call.clock
        (painted (update_copies call force new ind l) mem)
        (frame_of l.state)
        new
drawn-ShowsAt call force new ind l mem hn ho shows =
    ShowsAt-same call.characters call.clock (painted (refresh call force new l).copies mem)
      (painted (update_copies call force new ind l) mem) (frame_of l.state) new
      (λ k hk. update-region call force new ind l mem (frame_of l.state) k)
      (refresh-ShowsAt call force new l mem hn ho shows)

kept-Shows :
    (call : Call) (force : Bool) (new : List Cell) (ind : ℕ) (l : Lcd) (mem : Memory) (fb : ℕ)
    (cells : List Cell)
    → length new ≡ 12
    → (frame_of l.state == fb) ≡ false
    → Shows call.characters mem fb cells
    → Shows call.characters (painted (update_copies call force new ind l) mem) fb cells
kept-Shows call force new ind l mem fb cells hn ne shows =
    Shows-same call.characters mem (painted (update_copies call force new ind l) mem) fb cells
      (λ k hk.
        update-region call force new ind l mem fb k
        ∙ refresh-other call force new l mem fb k hn hk ne)
      shows

-- What the static variables hold decides which frame is drawn.
in_frame_0 :
    (l : Lcd)
    → (l.state == 0) ≡ true
    → (frame_of l.state ≡ layer1) × (cells_in l l.state ≡ l.cells0)
in_frame_0 l e = (rw e refl, rw e refl)

in_frame_1 :
    (l : Lcd)
    → (l.state == 0) ≡ false
    → (frame_of l.state ≡ layer2) × (cells_in l l.state ≡ l.cells1)
in_frame_1 l e = (rw e refl, rw e refl)

-- What one call does, from frames and static variables that agree.
abbrev pub Refreshed : Call → Bool → List Cell → ℕ → Lcd → Memory → Type 0
Refreshed call force new ind l mem =
    let l' : Lcd = update_display call force new ind l in
    let mem' : Memory = painted (update_copies call force new ind l) mem in
    InStep call.characters mem' l'
    × ShowsAt call.characters call.clock mem' l'.misa new
    × (l'.misa ≡ frame_of l.state)
    × (l'.state ≡ 1 - l.state)

InStep-from_0 :
    (call : Call) (force : Bool) (new : List Cell) (ind : ℕ) (l : Lcd) (mem : Memory)
    → length new ≡ 12
    → InStep call.characters mem l
    → (l.state == 0) ≡ true
    → Refreshed call force new ind l mem
InStep-from_0 call force new ind l mem hn v e =
    let mem' : Memory = painted (update_copies call force new ind l) mem in
    let l' : Lcd = update_display call force new ind l in
    let (f, c) = in_frame_0 l e in
    let long = subst (λ x. length x ≡ 12) (sym c) v.long0 in
    let s = update-Stored call force new ind l hn long in
    let shows : ShowsAt call.characters call.clock mem' (frame_of l.state) new =
      drawn-ShowsAt call force new ind l mem hn long (rw (f, c) v.shows0) in
    let kept = kept-Shows call force new ind l mem layer2 l.cells1 hn (rw f refl) v.shows1 in
    let c0 : l'.cells0 ≡ new = s.cells0 ∙ rw e refl in
    let c1 : l'.cells1 ≡ l.cells1 = s.cells1 ∙ rw e refl in
    let st : l'.state ≡ 1 = s.state ∙ rw e refl in
    let now : l'.state ≡ 1 - l.state = ground (arith, st, e) in
    (
      record {
        two = omega (arith, st);
        long0 = ap length c0 ∙ hn;
        long1 = ap length c1 ∙ v.long1;
        shows0 = rw c0 (
            any_time call.characters call.clock mem' layer1 new
              (subst (λ x. ShowsAt call.characters call.clock mem' x new) f shows));
        shows1 = rw c1 kept;
      },
      rw s.misa shows,
      s.misa,
      now,
    )

InStep-from_1 :
    (call : Call) (force : Bool) (new : List Cell) (ind : ℕ) (l : Lcd) (mem : Memory)
    → length new ≡ 12
    → InStep call.characters mem l
    → (l.state == 0) ≡ false
    → Refreshed call force new ind l mem
InStep-from_1 call force new ind l mem hn v e =
    let mem' : Memory = painted (update_copies call force new ind l) mem in
    let l' : Lcd = update_display call force new ind l in
    let (f, c) = in_frame_1 l e in
    let long = subst (λ x. length x ≡ 12) (sym c) v.long1 in
    let s = update-Stored call force new ind l hn long in
    let shows : ShowsAt call.characters call.clock mem' (frame_of l.state) new =
      drawn-ShowsAt call force new ind l mem hn long (rw (f, c) v.shows1) in
    let kept = kept-Shows call force new ind l mem layer1 l.cells0 hn (rw f refl) v.shows0 in
    let c1 : l'.cells1 ≡ new = s.cells1 ∙ rw e refl in
    let c0 : l'.cells0 ≡ l.cells0 = s.cells0 ∙ rw e refl in
    let st : l'.state ≡ 0 = s.state ∙ rw e refl in
    let now : l'.state ≡ 1 - l.state = ground (arith, st, e, v.two) in
    (
      record {
        two = omega (arith, st);
        long1 = ap length c1 ∙ hn;
        long0 = ap length c0 ∙ v.long0;
        shows1 = rw c1 (
            any_time call.characters call.clock mem' layer2 new
              (subst (λ x. ShowsAt call.characters call.clock mem' x new) f shows));
        shows0 = rw c0 kept;
      },
      rw s.misa shows,
      s.misa,
      now,
    )

-- If the static variables describe what the two frames show, then so they do behind a call of
-- `update_display` with twelve cells, forced or not; the frame that the LCD was not showing is drawn
-- and shown, its regions show the new cells as a full redraw would leave them, but that a region in
-- which nothing was ever drawn may stay black if its cell is empty, and the next call draws the
-- other frame.
pub update_display-InStep :
    (call : Call) (force : Bool) (new : List Cell) (ind : ℕ) (l : Lcd) (mem : Memory)
    → length new ≡ 12
    → InStep call.characters mem l
    → Refreshed call force new ind l mem
update_display-InStep call force new ind l mem hn v = elim (Bool-cases (l.state == 0)) [
  | inl e ↦ InStep-from_0 call force new ind l mem hn v e
  | inr e ↦ InStep-from_1 call force new ind l mem hn v e
]
