-- ===== src/Decoder/Buttons.antt =====
-- A button's frame: three byte pairs, whose output bytes are the button's code.
pub mod Presses
use lcdpico_34401a.Common.{
  ℕ, ◌+◌, ◌*◌, ◌<◌, ◌≡◌, ◌≢◌, refl, ap, ◌∙◌, arith, true, false, List, [], ◌∷◌, ◌==◌, set,
  length-set, get_or, get_or-set_self, get_or-set_ne, bit_or, bit_and, ◌%◌, ◌^◌, ◌&&◌, ◌||◌, Bool,
  or_fields, or_high, if◌then◌else◌,
}
use lcdpico_34401a.Decoder.State.{
  SniffByte, frame_unknown, frame_button, Display, Frame, Shift, Context,
}
use lcdpico_34401a.Decoder.Publish.{ann_shift}
use lcdpico_34401a.Decoder.Process.{
  Scanners, store_byte, classify, enter, end_frame, in_frame, shift_code, button_code, press_shift,
  clear_shift, press_button, on_button, accept,
}
use lcdpico_34401a.Decoder.Valid.{FrameIsValid}
use lcdpico_34401a.Decoder.Frames.{
  is_eof, stored, accept-eq-in_frame, accept_all, buf_len-store_byte, store_byte-FrameIsValid,
  last_input-store_byte,
}
use lcdpico_34401a.Decoder.Frames.Kinds.{IsIdle}

-- The pair that opens a button's frame, and the two behind it.
abbrev opens : SniffByte
opens = record { input = 0x00; output = 0x77 }

abbrev closes : ℕ → SniffByte
closes o2 = record { input = 0x66; output = o2 }

abbrev pub button_frame : ℕ → SniffByte → ℕ → List (ℕ × SniffByte)
button_frame now c o2 = (now, opens) ∷ (now, c) ∷ (now, closes o2) ∷ []

abbrev one : Frame → Frame
one f = enter frame_button (store_byte opens f)

abbrev three : SniffByte → ℕ → Frame → Frame
three c o2 f = store_byte (closes o2) (store_byte c (one f))

code-eq :
    (o1 o2 : ℕ)
    → o1 < 256
    → o2 < 256
    → bit_or (bit_or (0x77 * 65536) (o1 * 256)) o2 ≡ 0x77 * 65536 + o1 * 256 + o2
code-eq o1 o2 p q =
    let high : bit_or (0x77 * 65536) (o1 * 256) ≡ 0x77 * 65536 + o1 * 256 =
      or_high 16 0x77 (o1 * 256) (omega arith) in
    let regroup : 0x77 * 65536 + o1 * 256 ≡ (0x77 * 256 + o1) * 256 = omega arith in
    ap (λ t. bit_or t o2) (high ∙ regroup)
    ∙ (or_high 8 (0x77 * 256 + o1) o2 (omega arith) ∙ omega arith)

classify-opens :
    (f : Frame) → IsIdle f → classify (store_byte opens f) ≡ enter frame_button (store_byte opens f)
unfolding classify store_byte
classify-opens f v =
    ground (arith, get_or-set_self f.input_buf 0 0 0, get_or-set_self f.output_buf 0 0x77 0)

accept-opens :
    (rx : Scanners) (now : ℕ) (ctx : Context)
    → IsIdle ctx.frame
    → accept rx now opens ctx ≡ record ctx { frame = one ctx.frame }
unfolding in_frame
accept-opens rx now ctx v =
    accept-eq-in_frame rx now opens ctx v.valid refl (omega (arith, v.empty))
    ∙ (ap (λ s. in_frame now s (stored opens ctx)) v.unknown
        ∙ ap (λ (f : Frame). record ctx { frame = f }) (classify-opens ctx.frame v))

-- In a button's frame a pair is stored, and the button acted on at its end.
accept_button :
    (rx : Scanners) (now : ℕ) (b : SniffByte) (ctx : Context)
    → FrameIsValid ctx.frame
    → ctx.frame.frame_state ≡ frame_button
    → ctx.frame.buf_len < 99
    → is_eof b ≡ false
    → accept rx now b ctx ≡ on_button now (stored b ctx)
unfolding in_frame
accept_button rx now b ctx v k room h =
    accept-eq-in_frame rx now b ctx v h room ∙ ap (λ s. in_frame now s (stored b ctx)) k

-- The three output bytes lie in the buffer in order.
outputs-three :
    (c : SniffByte) (o2 : ℕ) (f : Frame)
    → IsIdle f
    → (get_or (three c o2 f).output_buf 0 0 ≡ 0x77)
      × (get_or (three c o2 f).output_buf 1 0 ≡ c.output)
      × (get_or (three c o2 f).output_buf 2 0 ≡ o2)
      × (get_or (three c o2 f).input_buf 2 0 ≡ 0x66)
      × ((three c o2 f).buf_len ≡ 3)
unfolding store_byte enter
outputs-three c o2 f v =
    let out : List ℕ = f.output_buf in
    let inp : List ℕ = set (set f.input_buf 0 0) 1 c.input in
    let len0 = length-set out 0 0x77 in
    let len1 = length-set (set out 0 0x77) 1 c.output in
    let in_len0 = length-set f.input_buf 0 0 in
    let in_len1 = length-set (set f.input_buf 0 0) 1 c.input in
    rw v.empty (
      get_or-set_ne (set (set out 0 0x77) 1 c.output) 2 0 o2 0 (omega arith)
          ∙ (get_or-set_ne (set out 0 0x77) 1 0 c.output 0 (omega arith)
              ∙ get_or-set_self out 0 0x77 0 (omega arith)),
      get_or-set_ne (set (set out 0 0x77) 1 c.output) 2 1 o2 0 (omega arith)
          ∙ get_or-set_self (set out 0 0x77) 1 c.output 0 (omega arith),
      get_or-set_self (set (set out 0 0x77) 1 c.output) 2 o2 0 (omega arith),
      get_or-set_self inp 2 0x66 0 (omega arith),
      refl,
    )

button_code-three :
    (c : SniffByte) (o2 : ℕ) (f : Frame)
    → IsIdle f
    → c.output < 256
    → o2 < 256
    → button_code (three c o2 f) ≡ 0x77 * 65536 + c.output * 256 + o2
unfolding button_code
button_code-three c o2 f v p q =
    let r = outputs-three c o2 f v in rw (r.0, r.1, r.2) (code-eq c.output o2 p q)

one-FrameIsValid : (f : Frame) → IsIdle f → FrameIsValid (one f) × ((one f).buf_len ≡ 1)
unfolding enter
one-FrameIsValid f v =
    let valid = store_byte-FrameIsValid opens f v.valid (omega (arith, v.empty)) in
    let len = buf_len-store_byte opens f v.valid in (omega arith, omega (arith, v.empty))

accept-second :
    (rx : Scanners) (now : ℕ) (c : SniffByte) (ctx : Context)
    → IsIdle ctx.frame
    → is_eof c ≡ false
    → c.input ≢ 0x66
    → accept rx now c (record ctx { frame = one ctx.frame })
      ≡ record ctx { frame = store_byte c (one ctx.frame) }
unfolding on_button
accept-second rx now c ctx v h ne =
    let first = one-FrameIsValid ctx.frame v in
    let ctx1 : Context = record ctx { frame = one ctx.frame } in
    accept_button rx now c ctx1 first.0 (unfold enter in refl) (omega arith) h
    ∙ ground (arith, last_input-store_byte c (one ctx.frame) first.0)

accept-third :
    (rx : Scanners) (now : ℕ) (c : SniffByte) (o2 : ℕ) (ctx : Context)
    → IsIdle ctx.frame
    → accept rx now (closes o2) (record ctx { frame = store_byte c (one ctx.frame) })
      ≡ on_button now (record ctx { frame = three c o2 ctx.frame })
accept-third rx now c o2 ctx v =
    let first = one-FrameIsValid ctx.frame v in
    let len = buf_len-store_byte c (one ctx.frame) first.0 in
    accept_button rx now (closes o2) (record ctx { frame = store_byte c (one ctx.frame) })
      (store_byte-FrameIsValid c (one ctx.frame) first.0 (omega arith))
      (unfold store_byte enter in refl) (omega arith) refl

all_three :
    (rx : Scanners) (now : ℕ) (c : SniffByte) (o2 : ℕ) (ctx : Context)
    → IsIdle ctx.frame
    → is_eof c ≡ false
    → c.input ≢ 0x66
    → accept_all rx (button_frame now c o2) ctx
      ≡ on_button now (record ctx { frame = three c o2 ctx.frame })
unfolding accept_all
all_three rx now c o2 ctx v h ne =
    ap (λ x. accept rx now (closes o2) (accept rx now c x)) (accept-opens rx now ctx v)
    ∙ (ap (accept rx now (closes o2)) (accept-second rx now c ctx v h ne)
        ∙ accept-third rx now c o2 ctx v)

three-FrameIsValid : (c : SniffByte) (o2 : ℕ) (f : Frame) → IsIdle f → FrameIsValid (three c o2 f)
three-FrameIsValid c o2 f v =
    let first = one-FrameIsValid f v in
    let two = buf_len-store_byte c (one f) first.0 in
    let valid = store_byte-FrameIsValid c (one f) first.0 (omega arith) in
    store_byte-FrameIsValid (closes o2) (store_byte c (one f)) valid (omega arith)

-- SHIFT's code as a number and byte by byte.
is_shift-eq :
    (o1 o2 : ℕ)
    → o1 < 256
    → o2 < 256
    → (0x77 * 65536 + o1 * 256 + o2 == 0x779dcf) ≡ (o1 == 0x9d && o2 == 0xcf)
is_shift-eq o1 o2 p q = ground arith

-- A whole button frame, read from an idle frame: the pair 00/77, a pair that neither ends the
-- frame nor has 0x66 on its input, and a pair with 0x66. If the three output bytes are 77 9d cf,
-- SHIFT's code, the press is counted, in eight bits and from one if the shift window was closed, the
-- window is open from now on, and the display stays. Any other code closes the window with the
-- count at zero; if bit 11, SHIFT, is among the annunciators it is taken off and new data is
-- announced, and the rest of the display stays. The line being assembled stays, and the decoder is
-- idle again.
pub button_frame_lem :
    (rx : Scanners) (now : ℕ) (c : SniffByte) (o2 : ℕ) (ctx : Context)
    → IsIdle ctx.frame
    → is_eof c ≡ false
    → c.input ≢ 0x66
    → c.output < 256
    → o2 < 256
    → let ctx' : Context = accept_all rx (button_frame now c o2) ctx in
      let is_shift : Bool = c.output == 0x9d && o2 == 0xcf in
      let d : Display = ctx.display in
      let w : Shift = ctx.shift in
      (ctx'.shift ≡ (
        if is_shift
        then record {
          shift_press_count = if w.shift_window_active then (w.shift_press_count + 1) % 256 else 1;
          shift_window_active = true;
          shift_window_start_us = now;
        }
        else record {
          shift_press_count = 0;
          shift_window_active = false;
          shift_window_start_us = w.shift_window_start_us;
        }))
      × (ctx'.display ≡ (
          if is_shift || bit_and d.ann_state 0x800 == 0 then d else record d {
            ann_state = bit_and d.ann_state 0xf7ff;
            new_data_counter = (d.new_data_counter + 1) % 2 ^ 32;
            ann_counter = (d.ann_counter + 1) % 2 ^ 32;
          }))
      × (ctx'.message ≡ ctx.message)
      × IsIdle ctx'.frame
unfolding on_button press_button press_shift clear_shift end_frame
button_frame_lem rx now c o2 ctx v h ne p q =
    let r = outputs-three c o2 ctx.frame v in
    let code = button_code-three c o2 ctx.frame v p q in
    let valid = three-FrameIsValid c o2 ctx.frame v in
    let same = is_shift-eq c.output o2 p q in
    rw (all_three rx now c o2 ctx v h ne) (ground (arith, r, code, valid, same))
