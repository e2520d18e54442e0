-- ===== src/Screen/Update/Shows.antt =====
-- Each call of `update_display` shows the cells that it is given, whatever was drawn before.

use lcdpico_34401a.Common.{
  ℕ, zero, suc, ◌≤◌, ◌<◌, ◌≡◌, ◌⊎◌, inl, inr, refl, sym, ap, ◌∙◌, arith, Bool, false, ◌&&◌, List,
  [], length, get_or, leb, ◌==◌, bit_and, ◌^◌, Bool-cases,
}
use lcdpico_34401a.Screen.Cells.{Cell}
use lcdpico_34401a.Screen.Theme.{Indicator, indicator_blank, indicator_map, char_x_offset}
use lcdpico_34401a.Screen.Refresh.{Copy, layer1, layer2, frame_of, draw_cell, must_draw}
use lcdpico_34401a.Screen.Refresh.Regions.{hits, onto, region, region-append}
use lcdpico_34401a.Screen.Refresh.Frame.{same_cell, draw_cells-other, draw_cells-region}
use lcdpico_34401a.Screen.Update.{
  indicator_at, is_lit, light_copy, draw_light, draw_lights, Lcd, cells_in, ind_in, Call, refresh,
  update_copies,
}

-- The cell as `init_theme` leaves it.
abbrev pub empty_cell : Cell
empty_cell = record { c = 0; flags = 0; blink = false }

-- What the regions of the frames show.
abbrev pub Memory : Type 0
Memory = ℕ → ℕ → List Copy

-- The frames behind some copies.
abbrev pub painted : List Copy → Memory → Memory
painted ks mem fb i = region fb i ks (mem fb i)

-- Every region shows its cell, as it was drawn at some time. A region in which nothing was drawn is
-- still black, and its cell is empty, as the static variables are at the start.
abbrev pub Shows : ℕ → Memory → ℕ → List Cell → Type 0
Shows image mem fb cells =
    (k : ℕ)
    → k < 12
    → ((get_or cells k empty_cell ≡ empty_cell) × (mem fb k ≡ []))
      ⊎ ((now : ℕ) × (mem fb k ≡ draw_cell image fb now k (get_or cells k empty_cell)))

-- Lights stand left of the characters.
light-misses :
    (image fb gb tile i : ℕ) (d : Indicator) (old : List Copy)
    → onto fb i (light_copy image gb tile d) old ≡ old
unfolding onto hits light_copy
light-misses image fb gb tile i d old =
    let left : (gb == fb && leb char_x_offset 0) ≡ false = ground arith in rw left refl

draw_light-misses :
    (image fb gb flags was n i : ℕ) (old : List Copy)
    → region fb i (draw_light image gb flags was n) old ≡ old
unfolding draw_light region
draw_light-misses image fb gb flags was n i old =
    let ind : ℕ = get_or indicator_map n 0 in
    let d : Indicator = indicator_at ind in
    elim (Bool-cases (ind == indicator_blank)) [
      | inl a ↦ rw a refl
      | inr a ↦ elim (Bool-cases (bit_and flags (2 ^ n) == bit_and was (2 ^ n) && d.mode == 0)) [
        | inl b ↦ rw (a, b) refl
        | inr b ↦ elim (Bool-cases (is_lit flags n)) [
          | inl c ↦ rw (a, b, c) (light-misses image fb gb d.tile i d old)
          | inr c ↦ elim (Bool-cases (d.mode == 2)) [
            | inl e ↦ rw (a, b, c, e) refl
            | inr e ↦
                rw (a, b, c, e)
                  (light-misses image fb gb (indicator_at indicator_blank).tile i d old)
          ]
        ]
      ]
    ]

draw_lights-misses :
    (image fb gb flags was n m i : ℕ) (old : List Copy)
    → region fb i (draw_lights image gb flags was n m) old ≡ old
unfolding draw_lights region
draw_lights-misses image fb gb flags was zero m i old = refl
draw_lights-misses image fb gb flags was (suc n) m i old =
    region-append fb i (draw_light image gb flags was m) (draw_lights image gb flags was n (suc m))
      old
    ∙ (draw_lights-misses image fb gb flags was n (suc m) i
          (region fb i (draw_light image gb flags was m) old)
        ∙ draw_light-misses image fb gb flags was m i old)

-- A cell that does not blink looks the same at all times.
draw_cell-steady :
    (image fb now later i : ℕ) (x : Cell)
    → x.blink ≡ false
    → draw_cell image fb now i x ≡ draw_cell image fb later i x
unfolding draw_cell
draw_cell-steady image fb now later i x h = rw h refl

undrawn-steady : (force : Bool) (x y : Cell) → must_draw force x y ≡ false → x.blink ≡ false
unfolding must_draw
undrawn-steady force x y h = ground (arith, h)

-- The same, drawn at the times that one call read.
abbrev pub ShowsAt : ℕ → (ℕ → ℕ) → Memory → ℕ → List Cell → Type 0
ShowsAt image clock mem fb cells =
    (k : ℕ)
    → k < 12
    → ((get_or cells k empty_cell ≡ empty_cell) × (mem fb k ≡ []))
      ⊎ (mem fb k ≡ draw_cell image fb (clock k) k (get_or cells k empty_cell))

-- One frame's regions behind the loop over the cells.
pub refresh-ShowsAt :
    (call : Call) (force : Bool) (new : List Cell) (l : Lcd) (mem : Memory)
    → length new ≡ 12
    → length (cells_in l l.state) ≡ 12
    → Shows call.characters mem (frame_of l.state) (cells_in l l.state)
    → ShowsAt call.characters call.clock
        (painted (refresh call force new l).copies mem)
        (frame_of l.state)
        new
unfolding refresh
refresh-ShowsAt call force new l mem hn ho shows k hk =
    let old : List Cell = cells_in l l.state in
    let fb : ℕ = frame_of l.state in
    let x : Cell = get_or new k empty_cell in
    let y : Cell = get_or old k empty_cell in
    let here =
      draw_cells-region call.characters fb call.clock force 0 k k new old (mem fb k) empty_cell
        (omega arith) (hn ∙ sym ho) (omega (arith, hn, hk)) (omega (arith, hn)) in
    elim (Bool-cases (must_draw force x y)) [
      | inl e ↦ inr (here ∙ rw e refl)
      | inr e ↦
          let same = same_cell force x y e in
          elim (shows k hk) [
            | inl (vacant, black) ↦ inl (same ∙ vacant, here ∙ rw e black)
            | inr (now, drawn) ↦
                let old_time = drawn ∙ ap (draw_cell call.characters fb now k) (sym same) in
                let steady =
                  draw_cell-steady call.characters fb now (call.clock k) k x
                    (undrawn-steady force x y e) in
                inr (here ∙ rw e (old_time ∙ steady))
          ]
    ]

-- The memory behind the whole call is that behind the cells: the lights touch no cell.
pub update-region :
    (call : Call) (force : Bool) (new : List Cell) (ind : ℕ) (l : Lcd) (mem : Memory) (fb k : ℕ)
    → painted (update_copies call force new ind l) mem fb k
      ≡ painted (refresh call force new l).copies mem fb k
unfolding update_copies
update-region call force new ind l mem fb k =
    let lights : List Copy =
      draw_lights call.lights (frame_of l.state) ind (ind_in l l.state) 16 0 in
    region-append fb k (refresh call force new l).copies lights (mem fb k)
    ∙ draw_lights-misses call.lights fb (frame_of l.state) ind (ind_in l l.state) 16 0 k
        (painted (refresh call force new l).copies mem fb k)

-- The other frame's regions stay.
pub refresh-other :
    (call : Call) (force : Bool) (new : List Cell) (l : Lcd) (mem : Memory) (fb k : ℕ)
    → length new ≡ 12
    → k < 12
    → (frame_of l.state == fb) ≡ false
    → painted (refresh call force new l).copies mem fb k ≡ mem fb k
unfolding refresh
refresh-other call force new l mem fb k hn hk ne =
    draw_cells-other call.characters fb (frame_of l.state) call.clock force k 0 new
      (cells_in l l.state) (mem fb k) (omega (arith, hk)) (omega (arith, hn)) (ground (arith, ne))

-- The static variables and the two frames agree.
pub record InStep (image : ℕ) (mem : Memory) (l : Lcd) : Type 0 where
  pub two : l.state ≤ 1
  pub long0 : length l.cells0 ≡ 12
  pub long1 : length l.cells1 ≡ 12
  pub shows0 : Shows image mem layer1 l.cells0
  pub shows1 : Shows image mem layer2 l.cells1

pub ShowsAt-same :
    (image : ℕ) (clock : ℕ → ℕ) (mem mem' : Memory) (fb : ℕ) (cells : List Cell)
    → ((k : ℕ) → k < 12 → mem' fb k ≡ mem fb k)
    → ShowsAt image clock mem fb cells
    → ShowsAt image clock mem' fb cells
ShowsAt-same image clock mem mem' fb cells same shows k hk = elim (shows k hk) [
  | inl (vacant, black) ↦ inl (vacant, same k hk ∙ black)
  | inr drawn ↦ inr (same k hk ∙ drawn)
]

pub Shows-same :
    (image : ℕ) (mem mem' : Memory) (fb : ℕ) (cells : List Cell)
    → ((k : ℕ) → k < 12 → mem' fb k ≡ mem fb k)
    → Shows image mem fb cells
    → Shows image mem' fb cells
Shows-same image mem mem' fb cells same shows k hk = elim (shows k hk) [
  | inl (vacant, black) ↦ inl (vacant, same k hk ∙ black)
  | inr (now, drawn) ↦ inr (now, same k hk ∙ drawn)
]

pub any_time :
    (image : ℕ) (clock : ℕ → ℕ) (mem : Memory) (fb : ℕ) (cells : List Cell)
    → ShowsAt image clock mem fb cells
    → Shows image mem fb cells
any_time image clock mem fb cells shows k hk = elim (shows k hk) [
  | inl vacant ↦ inl vacant
  | inr drawn ↦ inr (clock k, drawn)
]
