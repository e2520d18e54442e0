-- ===== src/Decoder/Text/Whole/Counter.antt =====
-- A message frame announces new data.
use lcdpico_34401a.Common.{
  ℕ, ◌+◌, ◌%◌, ◌≤◌, ◌≡◌, refl, ap, ◌∙◌, arith, true, false, not, ◌&&◌, ◌||◌, Bool-cases, inl, inr,
  List, [], ◌∷◌, ◌++◌, length, ◌==◌,
}
use lcdpico_34401a.Common.Int.{◌==ℤ◌}
use lcdpico_34401a.Decoder.State.{SniffByte, frame_message, Display, Frame, Context}
use lcdpico_34401a.Decoder.Message.{update_bar, bar_style_of, bar_value_of}
use lcdpico_34401a.Decoder.Process.{Scanners, enter, judge, publish_line, finish_message}
use lcdpico_34401a.Decoder.Frames.{is_eof, stored, accept_all, NoEof}
use lcdpico_34401a.Decoder.Frames.Kinds.{IsIdle, kind_of, opened, opening, opened-FrameIsValid}
use lcdpico_34401a.Decoder.Text.Whole.{body, in_parts}

-- The counter has moved by one to `most`, on 32 bits.
abbrev pub Moved : ℕ → ℕ → ℕ → Type 0
Moved most old new = (n : ℕ) × (1 ≤ n) × (n ≤ most) × (new ≡ (old + n) % 4294967296)

counter-finish_message :
    (rx : Scanners) (now : ℕ) (ctx : Context)
    → Moved 2 ctx.display.new_data_counter (finish_message rx now ctx).display.new_data_counter
unfolding finish_message publish_line update_bar
counter-finish_message rx now ctx =
    let d : Display = publish_line (judge rx ctx.message) ctx.display in
    let f : Frame = ctx.frame in
    elim (Bool-cases
      (not (d.bar_style == bar_style_of f.input_buf) || not (d.bar ==ℤ bar_value_of f.input_buf))) [
        | inl e ↦ (2, omega arith, omega arith, rw e (omega arith))
        | inr e ↦ (1, omega arith, omega arith, rw e refl)
      ]

-- A whole message frame, as in `message_frame`, announces new data: the counter moves by one, or by
-- two if the bar changes.
pub message_frame-counter :
    (rx : Scanners) (ctx : Context) (t0 t1 t2 : ℕ) (b c e : SniffByte) (x : ℕ × SniffByte)
    (xs : List (ℕ × SniffByte))
    → IsIdle ctx.frame
    → is_eof b ≡ false
    → (b.input == 0x00 && b.output == 0x77) ≡ false
    → is_eof c ≡ false
    → kind_of b.input c.input ≡ frame_message
    → length xs ≤ 96
    → NoEof (x ∷ xs)
    → is_eof e ≡ true
    → let ctx' : Context = accept_all rx ((t0, b) ∷ (t1, c) ∷ ((x ∷ xs) ++ ((t2, e) ∷ []))) ctx in
      Moved 2 ctx.display.new_data_counter ctx'.display.new_data_counter
message_frame-counter rx ctx t0 t1 t2 b c e x xs v hb kb hc k room no_eof he =
    let fits = opened-FrameIsValid frame_message b c ctx.frame v in
    let r =
      body rx (x ∷ xs) (opened frame_message b c ctx) fits.0 (unfold enter in refl)
        (omega (arith, fits.1)) no_eof in
    let read : Context = accept_all rx (x ∷ xs) (opened frame_message b c ctx) in
    let parts =
      in_parts rx ctx t0 t1 t2 b c e (x ∷ xs) (opening rx t0 t1 frame_message b c ctx v hb kb hc k)
        r.valid r.kind he in
    let moved = counter-finish_message rx t2 (stored e read) in
    let start : (stored e read).display.new_data_counter ≡ ctx.display.new_data_counter =
      ap (λ (d : Display). d.new_data_counter) r.display in
    (moved.0, moved.1, moved.2, rw parts (moved.3 ∙ ap (λ o. (o + moved.0) % 4294967296) start))
