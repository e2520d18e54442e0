-- ===== src/Decoder/Frames.antt =====
-- How one byte pair moves the frame automaton.
pub mod Kinds
use lcdpico_34401a.Common.{
  ℕ, suc, ◌+◌, ◌-◌, ◌<◌, ◌≤◌, ◌≡◌, ◌≢◌, refl, arith, Bool, true, false, ◌&&◌, List, [], ◌∷◌, ◌++◌,
  length-set, ◌==◌, length, get_or, set, get_or-set_self, if◌then◌else◌,
}
use lcdpico_34401a.Decoder.State.{
  SniffByte, FrameState, frame_init, frame_unknown, frame_message, frame_annunciators,
  frame_control, frame_button, Display, Frame, Message, Context,
}
use lcdpico_34401a.Decoder.Process.{
  Scanners, last_bytes_are_eof, store_byte, end_frame, at_eof, in_frame, dispatch, guard_overflow,
  finish_message, on_annunciators, on_button, press_button, classify, enter, accept,
}
use lcdpico_34401a.Decoder.Valid.{IsValid, FrameIsValid}

-- The pair that ends a frame.
abbrev pub is_eof : SniffByte → Bool
is_eof b = b.input == 0x00 && b.output == 0xbb

pub buf_len-store_byte :
    (b : SniffByte) (f : Frame) → FrameIsValid f → (store_byte b f).buf_len ≡ f.buf_len + 1
unfolding store_byte
buf_len-store_byte b f v = omega arith

-- The test looks at the pair that came last.
pub last_bytes_are_eof-store_byte :
    (b : SniffByte) (f : Frame) → FrameIsValid f → last_bytes_are_eof (store_byte b f) ≡ is_eof b
unfolding last_bytes_are_eof store_byte
last_bytes_are_eof-store_byte b f v = ground (
  arith,
  get_or-set_self f.input_buf f.buf_len b.input 0,
  get_or-set_self f.output_buf f.buf_len b.output 0,
)

frame-at_eof :
    (rx : Scanners) (now : ℕ) (s : FrameState) (ctx : Context)
    → (at_eof rx now s ctx).frame ≡ end_frame ctx.frame
unfolding at_eof finish_message on_annunciators
frame-at_eof rx now frame_init ctx = refl
frame-at_eof rx now frame_unknown ctx = refl
frame-at_eof rx now frame_message ctx = refl
frame-at_eof rx now frame_annunciators ctx = refl
frame-at_eof rx now frame_control ctx = refl
frame-at_eof rx now frame_button ctx = refl

buf_len-in_frame :
    (now : ℕ) (s : FrameState) (ctx : Context)
    → (in_frame now s ctx).frame.buf_len ≤ ctx.frame.buf_len
unfolding in_frame classify enter on_button press_button end_frame
buf_len-in_frame now frame_init ctx = omega arith
buf_len-in_frame now frame_unknown ctx = ground arith
buf_len-in_frame now frame_message ctx = omega arith
buf_len-in_frame now frame_annunciators ctx = omega arith
buf_len-in_frame now frame_control ctx = omega arith
buf_len-in_frame now frame_button ctx = ground arith

guard_overflow-eq : (ctx : Context) → ctx.frame.buf_len < 100 → guard_overflow ctx ≡ ctx
unfolding guard_overflow
guard_overflow-eq ctx h = ground arith

abbrev pub stored : SniffByte → Context → Context
stored b ctx = record ctx { frame = store_byte b ctx.frame }

frame_state-store_byte : (b : SniffByte) (f : Frame) → (store_byte b f).frame_state ≡ f.frame_state
unfolding store_byte
frame_state-store_byte b f = refl

-- A pair that ends the frame: the overflow guard does nothing.
pub accept-eq-at_eof :
    (rx : Scanners) (now : ℕ) (b : SniffByte) (ctx : Context)
    → FrameIsValid ctx.frame
    → is_eof b ≡ true
    → accept rx now b ctx ≡ at_eof rx now ctx.frame.frame_state (stored b ctx)
unfolding accept dispatch store_byte
accept-eq-at_eof rx now b ctx v h =
    rw (last_bytes_are_eof-store_byte b ctx.frame v, h, frame_state-store_byte b ctx.frame)
      (guard_overflow-eq (at_eof rx now ctx.frame.frame_state (stored b ctx)) short)
  where
    short : (at_eof rx now ctx.frame.frame_state (stored b ctx)).frame.buf_len < 100
    short =
        rw (frame-at_eof rx now ctx.frame.frame_state (stored b ctx))
          (unfold end_frame in omega arith)

-- Any other pair, while the buffers have room for one more.
pub accept-eq-in_frame :
    (rx : Scanners) (now : ℕ) (b : SniffByte) (ctx : Context)
    → FrameIsValid ctx.frame
    → is_eof b ≡ false
    → ctx.frame.buf_len < 99
    → accept rx now b ctx ≡ in_frame now ctx.frame.frame_state (stored b ctx)
unfolding accept dispatch store_byte
accept-eq-in_frame rx now b ctx v h room =
    rw (last_bytes_are_eof-store_byte b ctx.frame v, h, frame_state-store_byte b ctx.frame)
      (guard_overflow-eq (in_frame now ctx.frame.frame_state (stored b ctx)) (
        omega (
          arith,
          buf_len-in_frame now ctx.frame.frame_state (stored b ctx),
          buf_len-store_byte b ctx.frame v,
        )))

-- An end-of-frame pair brings the automaton to FRAME_UNKNOWN with an empty buffer, from every
-- state of a context whose frame buffers are valid: after one such pair the decoder is in step.
pub accept-eof :
    (rx : Scanners) (now : ℕ) (b : SniffByte) (ctx : Context)
    → FrameIsValid ctx.frame
    → is_eof b ≡ true
    → ((accept rx now b ctx).frame.frame_state ≡ frame_unknown)
      × ((accept rx now b ctx).frame.buf_len ≡ 0)
unfolding end_frame
accept-eof rx now b ctx v h =
    rw (accept-eq-at_eof rx now b ctx v h, frame-at_eof rx now ctx.frame.frame_state (stored b ctx))
      (refl, refl)

-- Byte pairs one after the other, each with the timer's reading.
unfoldable pub accept_all : Scanners → List (ℕ × SniffByte) → Context → Context
accept_all rx [] ctx = ctx
accept_all rx ((now, b) ∷ bs) ctx = accept_all rx bs (accept rx now b ctx)

pub accept_all-append :
    (rx : Scanners) (xs ys : List (ℕ × SniffByte)) (ctx : Context)
    → accept_all rx (xs ++ ys) ctx ≡ accept_all rx ys (accept_all rx xs ctx)
unfolding accept_all
accept_all-append rx [] ys ctx = refl
accept_all-append rx ((now, b) ∷ xs) ys ctx = accept_all-append rx xs ys (accept rx now b ctx)

-- No pair of these ends a frame.
abbrev pub NoEof : List (ℕ × SniffByte) → Type 0
NoEof [] = Unit
NoEof ((now, b) ∷ bs) = (is_eof b ≡ false) × NoEof bs

pub store_byte-FrameIsValid :
    (b : SniffByte) (f : Frame) → FrameIsValid f → f.buf_len < 99 → FrameIsValid (store_byte b f)
unfolding store_byte
store_byte-FrameIsValid b f v room =
    omega
      (arith, length-set f.input_buf f.buf_len b.input, length-set f.output_buf f.buf_len b.output)

-- The pair that came last is the one that the automaton reads.
pub last_input-store_byte :
    (b : SniffByte) (f : Frame)
    → FrameIsValid f
    → get_or (store_byte b f).input_buf ((store_byte b f).buf_len - 1) 0 ≡ b.input
unfolding store_byte
last_input-store_byte b f v = ground (arith, get_or-set_self f.input_buf f.buf_len b.input 0)
