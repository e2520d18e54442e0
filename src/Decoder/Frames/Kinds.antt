-- ===== src/Decoder/Frames/Kinds.antt =====
-- The first two byte pairs of a frame tell its kind.
use lcdpico_34401a.Common.{
  ℕ, ◌<◌, ◌≡◌, arith, ap, ◌∙◌, false, ◌&&◌, ◌==◌, set, get_or-set_self, get_or-set_ne, length-set,
  bit_and, if◌then◌else◌,
}
use lcdpico_34401a.Decoder.State.{
  SniffByte, FrameState, frame_unknown, frame_message, frame_annunciators, frame_control, Frame,
  Context,
}
use lcdpico_34401a.Decoder.Process.{Scanners, store_byte, classify, enter, in_frame, accept}
use lcdpico_34401a.Decoder.Valid.{FrameIsValid}
use lcdpico_34401a.Decoder.Frames.{
  is_eof, stored, accept-eq-in_frame, buf_len-store_byte, store_byte-FrameIsValid,
}

-- A frame that has just begun.
pub record IsIdle (f : Frame) : Type 0 where
  pub valid : FrameIsValid f
  pub unknown : f.frame_state ≡ frame_unknown
  pub empty : f.buf_len ≡ 0

-- In FRAME_UNKNOWN a pair is stored and the frame classified.
accept_unknown :
    (rx : Scanners) (now : ℕ) (b : SniffByte) (ctx : Context)
    → FrameIsValid ctx.frame
    → ctx.frame.frame_state ≡ frame_unknown
    → ctx.frame.buf_len < 99
    → is_eof b ≡ false
    → accept rx now b ctx ≡ record ctx { frame = classify (store_byte b ctx.frame) }
unfolding in_frame
accept_unknown rx now b ctx v u room h =
    accept-eq-in_frame rx now b ctx v h room ∙ ap (λ s. in_frame now s (stored b ctx)) u

classify_first :
    (b : SniffByte) (f : Frame)
    → IsIdle f
    → (b.input == 0x00 && b.output == 0x77) ≡ false
    → classify (store_byte b f) ≡ store_byte b f
unfolding classify store_byte
classify_first b f v k =
    ground
      (arith, get_or-set_self f.input_buf 0 b.input 0, get_or-set_self f.output_buf 0 b.output 0)

-- The first pair, if it is neither an end of frame nor a button's, is stored.
pub first_pair :
    (rx : Scanners) (now : ℕ) (b : SniffByte) (ctx : Context)
    → IsIdle ctx.frame
    → is_eof b ≡ false
    → (b.input == 0x00 && b.output == 0x77) ≡ false
    → accept rx now b ctx ≡ stored b ctx
first_pair rx now b ctx v h k =
    accept_unknown rx now b ctx v.valid v.unknown (omega (arith, v.empty)) h
    ∙ ap (λ (f : Frame). record ctx { frame = f }) (classify_first b ctx.frame v k)

-- The kind that two input bytes tell.
unfoldable pub kind_of : ℕ → ℕ → FrameState
kind_of in0 in1 =
    if in0 == 0x00 && bit_and in1 0x7f == 0x7f
    then frame_message
    else if bit_and in0 0x7f == 0x7f && in1 == 0x00
    then frame_annunciators
    else frame_control

classify_second :
    (b c : SniffByte) (f : Frame)
    → IsIdle f
    → classify (store_byte c (store_byte b f))
      ≡ enter (kind_of b.input c.input) (store_byte c (store_byte b f))
unfolding classify store_byte kind_of
classify_second b c f v = ground (
  arith,
  get_or-set_self f.input_buf 0 b.input 0,
  length-set f.input_buf 0 b.input,
  get_or-set_ne (set f.input_buf 0 b.input) 1 0 c.input 0,
  get_or-set_self (set f.input_buf 0 b.input) 1 c.input 0,
)

-- The second pair fixes the kind.
pub two_pairs :
    (rx : Scanners) (now : ℕ) (b c : SniffByte) (ctx : Context)
    → IsIdle ctx.frame
    → is_eof c ≡ false
    → accept rx now c (stored b ctx) ≡ record ctx {
      frame = enter (kind_of b.input c.input) (store_byte c (store_byte b ctx.frame));
    }
two_pairs rx now b c ctx v h =
    accept_unknown rx now c (stored b ctx) valid (unfold store_byte in v.unknown)
      (omega (arith, v.empty, buf_len-store_byte b ctx.frame v.valid)) h
    ∙ ap (λ (f : Frame). record ctx { frame = f }) (classify_second b c ctx.frame v)
  where
    valid : FrameIsValid (store_byte b ctx.frame)
    valid = store_byte-FrameIsValid b ctx.frame v.valid (omega (arith, v.empty))

-- A frame of kind `s` after its two opening pairs.
abbrev pub opened : FrameState → SniffByte → SniffByte → Context → Context
opened s b c ctx = record ctx { frame = enter s (store_byte c (store_byte b ctx.frame)) }

pub opening :
    (rx : Scanners) (t0 t1 : ℕ) (s : FrameState) (b c : SniffByte) (ctx : Context)
    → IsIdle ctx.frame
    → is_eof b ≡ false
    → (b.input == 0x00 && b.output == 0x77) ≡ false
    → is_eof c ≡ false
    → kind_of b.input c.input ≡ s
    → accept rx t1 c (accept rx t0 b ctx) ≡ opened s b c ctx
opening rx t0 t1 s b c ctx v hb kb hc k =
    ap (accept rx t1 c) (first_pair rx t0 b ctx v hb kb)
    ∙ (two_pairs rx t1 b c ctx v hc ∙ ap (λ r. opened r b c ctx) k)

pub opened-FrameIsValid :
    (s : FrameState) (b c : SniffByte) (f : Frame)
    → IsIdle f
    → FrameIsValid (enter s (store_byte c (store_byte b f)))
      × ((enter s (store_byte c (store_byte b f))).buf_len ≡ 2)
unfolding enter
opened-FrameIsValid s b c f v =
    let once = store_byte-FrameIsValid b f v.valid (omega (arith, v.empty)) in
    let one = buf_len-store_byte b f v.valid in
    let twice = store_byte-FrameIsValid c (store_byte b f) once (omega (arith, v.empty)) in
    let two = buf_len-store_byte c (store_byte b f) once in (omega arith, omega (arith, v.empty))
