-- ===== src/Decoder/Buttons/Presses.antt =====
-- SHIFT pressed several times, and the quiet time behind the last press that makes it count.
use lcdpico_34401a.Common.{
  ℕ, suc, ◌+◌, ◌*◌, ◌/◌, ◌%◌, ◌<◌, ◌≤◌, ◌≡◌, refl, sym, ap, ◌∙◌, arith, true, false, List, [], ◌∷◌,
  ◌==◌, bit_and, bit_xor, bit_and_step, bit_and-zero, xor_fields, bit_xor_step, bit_xor-zero, sub32,
  inc32, if◌then◌else◌, Bool-cases, inl, inr,
}
use mathlib.Core.Path.{subst}
use lcdpico_34401a.Decoder.State.{Shift, Context}
use lcdpico_34401a.Decoder.Publish.{ann_shift, shift_window_us, process_shift_window}
use lcdpico_34401a.Decoder.Process.{Scanners, press_shift}
use lcdpico_34401a.Decoder.Frames.{accept_all}
use lcdpico_34401a.Decoder.Frames.Kinds.{IsIdle}
use lcdpico_34401a.Decoder.Buttons.{button_frame, button_frame_lem}

-- A whole frame of SHIFT at some time, or the check at the start of `decoder34401_process`.
pub data Beat : Type 0 where
  press check : ℕ → Beat

abbrev pub beat : Scanners → Beat → Context → Context
beat rx (press t) ctx =
    accept_all rx (button_frame t (record { input = 0; output = 0x9d }) 0xcf) ctx
beat rx (check t) ctx = process_shift_window t ctx

abbrev pub beats : Scanners → List Beat → Context → Context
beats rx [] ctx = ctx
beats rx (b ∷ bs) ctx = beats rx bs (beat rx b ctx)

-- How often SHIFT is pressed, and when last.
abbrev pub presses : List Beat → ℕ
presses [] = 0
presses (press t ∷ bs) = suc (presses bs)
presses (check t ∷ bs) = presses bs

abbrev pub last_press : ℕ → List Beat → ℕ
last_press t [] = t
last_press t (press t' ∷ bs) = last_press t' bs
last_press t (check t' ∷ bs) = last_press t bs

-- No check comes later than the quiet time after the press before it.
abbrev pub InWindow : ℕ → List Beat → Type 0
InWindow t [] = Unit
InWindow t (press t' ∷ bs) = InWindow t' bs
InWindow t (check t' ∷ bs) = (sub32 t' t ≤ shift_window_us) × InWindow t bs

-- The window is open with `n` presses, the last at `t`.
record IsOpen (n t : ℕ) (ctx : Context) : Type 0 where
  active : ctx.shift.shift_window_active ≡ true
  start : ctx.shift.shift_window_start_us ≡ t
  count : ctx.shift.shift_press_count ≡ n % 256
  idle : IsIdle ctx.frame

press_shift-next :
    (n t : ℕ) (w : Shift)
    → w.shift_window_active ≡ true
    → w.shift_press_count ≡ n % 256
    → ((press_shift t w).shift_window_active ≡ true)
      × ((press_shift t w).shift_window_start_us ≡ t)
      × ((press_shift t w).shift_press_count ≡ suc n % 256)
unfolding press_shift
press_shift-next n t w a c = ground arith

press_shift-first :
    (t : ℕ) (w : Shift)
    → w.shift_window_active ≡ false
    → ((press_shift t w).shift_window_active ≡ true)
      × ((press_shift t w).shift_window_start_us ≡ t)
      × ((press_shift t w).shift_press_count ≡ 1)
unfolding press_shift
press_shift-first t w a = ground arith

-- The window behind a press, as the code opens or extends it.
press_shift-eq :
    (t : ℕ) (w : Shift)
    → record {
      shift_press_count = if w.shift_window_active then (w.shift_press_count + 1) % 256 else 1;
      shift_window_active = true;
      shift_window_start_us = t;
    }
      ≡ press_shift t w
unfolding press_shift
press_shift-eq t w = elim (Bool-cases w.shift_window_active) [
  | inl a ↦ rw a refl
  | inr a ↦ rw a refl
]

-- One frame of SHIFT.
shift_frame :
    (rx : Scanners) (t : ℕ) (ctx : Context)
    → IsIdle ctx.frame
    → ((beat rx (press t) ctx).shift ≡ press_shift t ctx.shift)
      × ((beat rx (press t) ctx).display ≡ ctx.display)
      × IsIdle (beat rx (press t) ctx).frame
shift_frame rx t ctx v =
    let r =
      button_frame_lem rx t (record { input = 0; output = 0x9d }) 0xcf ctx v refl (omega arith)
        (omega arith) (omega arith) in
    (r.0 ∙ press_shift-eq t ctx.shift, r.1, r.3)

press-IsOpen :
    (rx : Scanners) (n t t' : ℕ) (ctx : Context)
    → IsOpen n t ctx
    → IsOpen (suc n) t' (beat rx (press t') ctx) × ((beat rx (press t') ctx).display ≡ ctx.display)
press-IsOpen rx n t t' ctx o =
    let r = shift_frame rx t' ctx o.idle in
    let w = press_shift-next n t' ctx.shift o.active o.count in
    (
      record {
        active = ap (λ (v : Shift). v.shift_window_active) r.0 ∙ w.0;
        start = ap (λ (v : Shift). v.shift_window_start_us) r.0 ∙ w.1;
        count = ap (λ (v : Shift). v.shift_press_count) r.0 ∙ w.2;
        idle = r.2;
      },
      r.1,
    )

check-IsOpen :
    (rx : Scanners) (n t t' : ℕ) (ctx : Context)
    → IsOpen n t ctx
    → sub32 t' t ≤ shift_window_us
    → beat rx (check t') ctx ≡ ctx
unfolding process_shift_window
check-IsOpen rx n t t' ctx o h = ground arith

beats-IsOpen :
    (rx : Scanners) (n t m : ℕ) (bs : List Beat) (ctx : Context)
    → IsOpen n t ctx
    → InWindow t bs
    → m ≡ n + presses bs
    → IsOpen m (last_press t bs) (beats rx bs ctx) × ((beats rx bs ctx).display ≡ ctx.display)
beats-IsOpen rx n t m [] ctx o h e = (
  record { active = o.active; start = o.start; count = omega (arith, o.count); idle = o.idle },
  refl,
)
beats-IsOpen rx n t m (press t' ∷ bs) ctx o h e =
    let next = press-IsOpen rx n t t' ctx o in
    let rest = beats-IsOpen rx (suc n) t' m bs (beat rx (press t') ctx) next.0 h (omega arith) in
    (rest.0, rest.1 ∙ next.1)
beats-IsOpen rx n t m (check t' ∷ bs) ctx o h e =
    subst
      (λ c. IsOpen m (last_press t bs) (beats rx bs c) × ((beats rx bs c).display ≡ ctx.display))
      (sym (check-IsOpen rx n t t' ctx o h.0)) (beats-IsOpen rx n t m bs ctx o h.1 (omega arith))

-- Bit 11 added to `n` times.
abbrev pub flip_shift : ℕ → ℕ → ℕ
flip_shift n s = s / 4096 * 4096 + (s / 2048 + n) % 2 * 2048 + s % 2048

xor_shift : (s : ℕ) → bit_xor s ann_shift ≡ flip_shift 1 s
xor_shift s =
    let split : s ≡ s / 2048 * 2048 + s % 2048 = omega arith in
    ap (λ t. bit_xor t 2048) split
    ∙ (xor_fields 11 (s / 2048) 1 (s % 2048) 0 (omega arith) (omega arith)
        ∙ omega (
          arith,
          bit_xor_step (s / 2048) 1,
          bit_xor-zero (s / 2048 / 2),
          bit_xor-zero (s % 2048),
        ))

and_one : (a : ℕ) → bit_and a 1 ≡ a % 2
and_one a = omega (arith, bit_and_step a 1, bit_and-zero (a / 2))

close :
    (n t now : ℕ) (ctx : Context)
    → IsOpen n t ctx
    → shift_window_us < sub32 now t
    → let ctx' : Context = process_shift_window now ctx in
      (ctx'.shift.shift_window_active ≡ false)
      × (ctx'.display.ann_state ≡ flip_shift n ctx.display.ann_state)
      × (ctx'.display.new_data_counter ≡ (
          if n % 2 == 0 then ctx.display.new_data_counter else inc32 ctx.display.new_data_counter))
unfolding process_shift_window
close n t now ctx o h =
    ground (arith, and_one ctx.shift.shift_press_count, xor_shift ctx.display.ann_state)

-- SHIFT pressed `n` times from an idle frame with the shift window closed, with checks of the
-- window at most 300 ms after the last press, and then a check later than that: the window is
-- closed again, the SHIFT annunciator is flipped `n` times, the other annunciators stay, and new
-- data is announced exactly if `n` is odd.
pub shift_presses :
    (rx : Scanners) (t now : ℕ) (bs : List Beat) (ctx : Context)
    → IsIdle ctx.frame
    → ctx.shift.shift_window_active ≡ false
    → InWindow t bs
    → shift_window_us < sub32 now (last_press t bs)
    → let n : ℕ = suc (presses bs) in
      let ctx' : Context = process_shift_window now (beats rx (press t ∷ bs) ctx) in
      (ctx'.shift.shift_window_active ≡ false)
      × (ctx'.display.ann_state ≡ flip_shift n ctx.display.ann_state)
      × (ctx'.display.new_data_counter ≡ (
          if n % 2 == 0 then ctx.display.new_data_counter else inc32 ctx.display.new_data_counter))
shift_presses rx t now bs ctx v a h late =
    let r = shift_frame rx t ctx v in
    let w = press_shift-first t ctx.shift a in
    let opened : IsOpen 1 t (beat rx (press t) ctx) = record {
      active = ap (λ (v : Shift). v.shift_window_active) r.0 ∙ w.0;
      start = ap (λ (v : Shift). v.shift_window_start_us) r.0 ∙ w.1;
      count = ap (λ (v : Shift). v.shift_press_count) r.0 ∙ w.2;
      idle = r.2;
    } in
    let rest =
      beats-IsOpen rx 1 t (suc (presses bs)) bs (beat rx (press t) ctx) opened h (omega arith) in
    let same : (beats rx (press t ∷ bs) ctx).display ≡ ctx.display = rest.1 ∙ r.1 in
    let c =
      close (suc (presses bs)) (last_press t bs) now (beats rx (press t ∷ bs) ctx) rest.0 late in
    ground (arith, c, same)
