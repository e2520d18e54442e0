-- ===== src/Core1/Reading.antt =====
-- A message frame that spells a reading, and what the decoder leaves of it.
use mathlib.Core.Path.{subst}
use lcdpico_34401a.Common.{
  ℕ, ◌≤◌, ◌≡◌, ◌≢◌, refl, sym, ap, ◌∙◌, arith, true, false, not, ◌&&◌, Bool-cases, inl, inr, ◌⊎◌,
  List, [], ◌∷◌, ◌++◌, length, ◌==◌, inc32, sub32, bit_and, ltb,
}
use lcdpico_34401a.Util.Copies.{c_string}
use lcdpico_34401a.Scanner.Regex.{HasPrefix}
use lcdpico_34401a.Scanner.Grammar.{valid_reading_rules}
use lcdpico_34401a.Decoder.State.{SniffByte, frame_message, Context}
use lcdpico_34401a.Decoder.Publish.{shift_window_us, process_shift_window}
use lcdpico_34401a.Decoder.Process.{Clock}
use lcdpico_34401a.Decoder.Drain.{checked}
use lcdpico_34401a.Decoder.Frames.{accept_all, is_eof, NoEof}
use lcdpico_34401a.Decoder.Frames.Kinds.{IsIdle, kind_of}
use lcdpico_34401a.Decoder.Text.{line_of, is_corrupt}
use lcdpico_34401a.Decoder.Text.Whole.{inputs_of, message_frame-message}
use lcdpico_34401a.Decoder.Text.Whole.Counter.{Moved, message_frame-counter}
use lcdpico_34401a.Decoder.Scanned.{firmware}
use lcdpico_34401a.Decoder.Scanned.Frames.{line-reading, reading_frame}
use lcdpico_34401a.Screen.Cells.Text.{marks}
use lcdpico_34401a.Screen.Status.Hold.{is_known}
use lcdpico_34401a.Screen.Wire.{length-line_of}
use lcdpico_34401a.Core1.{}

-- A whole message frame that spells a reading: an opening pair that is neither an end of frame nor a
-- button's, a second pair that makes it a message, one to 97 further pairs that do not end the frame
-- and spell a clean line, which begins as a reading and has at most three marks, and an end of frame.
pub record IsReadingFrame (frame : List (ℕ × SniffByte)) (line : List ℕ) : Type 0 where
  pub t0 : ℕ
  pub t1 : ℕ
  pub t2 : ℕ
  pub b : SniffByte
  pub c : SniffByte
  pub e : SniffByte
  pub x : ℕ × SniffByte
  pub xs : List (ℕ × SniffByte)
  pub shape : frame ≡ (t0, b) ∷ (t1, c) ∷ ((x ∷ xs) ++ ((t2, e) ∷ []))
  pub spells : line ≡ line_of (inputs_of (x ∷ xs))
  pub b_opens : is_eof b ≡ false
  pub b_no_button : (b.input == 0x00 && b.output == 0x77) ≡ false
  pub c_opens : is_eof c ≡ false
  pub is_message : kind_of b.input c.input ≡ frame_message
  pub has_room : length xs ≤ 96
  pub goes_on : NoEof (x ∷ xs)
  pub ends : is_eof e ≡ true
  pub is_clean : is_corrupt (inputs_of (x ∷ xs)) ≡ false
  pub is_reading : HasPrefix valid_reading_rules (c_string line)
  pub few_marks : marks line ≤ 3

-- What the decoder leaves of such a frame.
pub record Decoded (line : List ℕ) (old : ℕ) (ctx : Context) : Type 0 where
  pub main : ctx.display.main ≡ line
  pub long : length ctx.display.main ≡ 16
  pub known : is_known ctx.message ≡ true
  pub news : Moved 2 old ctx.display.new_data_counter

pub accept_all-Decoded :
    (ctx : Context) (frame : List (ℕ × SniffByte)) (line : List ℕ)
    → IsIdle ctx.frame
    → ctx.message.msg_work_need_reset ≡ true
    → IsReadingFrame frame line
    → Decoded line ctx.display.new_data_counter (accept_all firmware frame ctx)
accept_all-Decoded ctx frame line v n f =
    let begins : HasPrefix valid_reading_rules (c_string (line_of (inputs_of (f.x ∷ f.xs)))) =
      subst (λ l. HasPrefix valid_reading_rules (c_string l)) f.spells f.is_reading in
    let whole : List (ℕ × SniffByte) =
      (f.t0, f.b) ∷ (f.t1, f.c) ∷ ((f.x ∷ f.xs) ++ ((f.t2, f.e) ∷ [])) in
    let main : (accept_all firmware whole ctx).display.main ≡ line =
      (reading_frame ctx f.t0 f.t1 f.t2 f.b f.c f.e f.x f.xs v n f.b_opens f.b_no_button f.c_opens
        f.is_message f.has_room f.goes_on f.ends f.is_clean begins).1
      ∙ sym f.spells in
    let (plain, valid) =
      message_frame-message firmware ctx f.t0 f.t1 f.t2 f.b f.c f.e f.x f.xs v n f.b_opens
        f.b_no_button f.c_opens f.is_message f.has_room f.goes_on f.ends f.is_clean
        (line-reading (inputs_of (f.x ∷ f.xs)) begins) in
    rw f.shape (record {
      main = main;
      long = ap length (main ∙ f.spells) ∙ length-line_of (inputs_of (f.x ∷ f.xs));
      known = rw (plain, valid) refl;
      news =
          message_frame-counter firmware ctx f.t0 f.t1 f.t2 f.b f.c f.e f.x f.xs v f.b_opens
            f.b_no_button f.c_opens f.is_message f.has_room f.goes_on f.ends;
    })

-- The check of the shift window leaves the frame and the message, and moves the counter by at most
-- one.
pub checked-same :
    (clock : Clock) (ctx : Context)
    → ((checked clock ctx).frame ≡ ctx.frame)
      × ((checked clock ctx).message ≡ ctx.message)
      × (((checked clock ctx).display.new_data_counter ≡ ctx.display.new_data_counter)
          ⊎ ((checked clock ctx).display.new_data_counter ≡ inc32 ctx.display.new_data_counter))
unfolding process_shift_window
checked-same clock ctx = (ground arith, ground arith, counter)
  where
    counter :
        ((checked clock ctx).display.new_data_counter ≡ ctx.display.new_data_counter)
        ⊎ ((checked clock ctx).display.new_data_counter ≡ inc32 ctx.display.new_data_counter)
    counter = elim (Bool-cases (not ctx.shift.shift_window_active)) [
      | inl e ↦ rw e (inl refl)
      | inr e ↦
          elim (Bool-cases
            (ltb shift_window_us (sub32 clock.window_us ctx.shift.shift_window_start_us))) [
              | inr f ↦ rw (e, f) (inl refl)
              | inl f ↦ elim (Bool-cases (bit_and ctx.shift.shift_press_count 1 == 0)) [
                | inl g ↦ rw (e, f, g) (inl refl)
                | inr g ↦ rw (e, f, g) (inr refl)
              ]
            ]
    ]

-- A counter that moved by one to three is not what it was.
pub Moved-has_news :
    (old start new : ℕ)
    → (start ≡ old) ⊎ (start ≡ inc32 old)
    → Moved 2 start new
    → not (new == old) ≡ true
Moved-has_news old start new (inl e) (n, low, high, h) =
    let apart : new ≢ old = λ k. omega arith in ground (arith, apart)
Moved-has_news old start new (inr e) (n, low, high, h) =
    let apart : new ≢ old = λ k. omega arith in ground (arith, apart)
