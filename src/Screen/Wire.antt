-- ===== src/Screen/Wire.antt =====
-- From the meter's wire to the LCD: the decoder, its scanners and the display task together.
use mathlib.Core.Path.{subst}
use lcdpico_34401a.Common.{
  ℕ, zero, suc, ◌-◌, ◌≤◌, ◌≡◌, refl, ap, ◌∙◌, arith, true, false, ◌&&◌, List, [], ◌∷◌, ◌++◌, map,
  length, length-append, take, drop, ◌==◌,
}
use lcdpico_34401a.Util.Copies.{c_string}
use lcdpico_34401a.Scanner.Regex.{HasPrefix}
use lcdpico_34401a.Scanner.Grammar.{valid_reading_rules}
use lcdpico_34401a.Decoder.State.{blank_line, SniffByte, frame_message, Context}
use lcdpico_34401a.Decoder.Frames.{accept_all, is_eof, NoEof}
use lcdpico_34401a.Decoder.Frames.Kinds.{IsIdle, kind_of}
use lcdpico_34401a.Decoder.Text.{cell, glyphs, line_of, is_corrupt}
use lcdpico_34401a.Decoder.Text.Whole.{inputs_of, message_frame-message}
use lcdpico_34401a.Decoder.Scanned.{firmware}
use lcdpico_34401a.Decoder.Scanned.Frames.{line-reading, reading_frame}
use lcdpico_34401a.Screen.Cells.{cells_of}
use lcdpico_34401a.Screen.Cells.Text.{marks, used, spelled_all}
use lcdpico_34401a.Screen.Update.{Call}
use lcdpico_34401a.Screen.Update.Shows.{InStep, ShowsAt}
use lcdpico_34401a.Screen.Task.{Task, display_status, display_status-known}

take-le : (n : ℕ) (s : List ℕ) → length (take n s) ≤ n
take-le zero s = omega arith
take-le (suc n) [] = omega arith
take-le (suc n) (c ∷ s) = omega (arith, take-le n s)

length-drop : (n : ℕ) (s : List ℕ) → length (drop n s) ≡ length s - n
length-drop zero s = omega arith
length-drop (suc n) [] = omega arith
length-drop (suc n) (c ∷ s) = omega (arith, length-drop n s)

pub length-line_of : (codes : List ℕ) → length (line_of codes) ≡ 16
unfolding line_of
length-line_of codes =
    let shown : List ℕ = take 15 (map cell (glyphs codes)) in
    omega (
      arith,
      length-append shown (drop (length shown) blank_line),
      take-le 15 (map cell (glyphs codes)),
      length-drop (length shown) blank_line,
    )

-- A whole message frame on the wire, as in `reading_frame`, whose line is a reading with at most
-- three marks, and then a call of `display_status` with new data, bring that line to the LCD: the
-- frame that it shows holds cells that spell the beginning of the line.
pub frame_on_lcd :
    (ctx : Context) (t0 t1 t2 : ℕ) (b c e : SniffByte) (x : ℕ × SniffByte)
    (xs : List (ℕ × SniffByte)) (call : Call) (now ann_now : ℕ) (t : Task)
    → IsIdle ctx.frame
    → ctx.message.msg_work_need_reset ≡ true
    → is_eof b ≡ false
    → (b.input == 0x00 && b.output == 0x77) ≡ false
    → is_eof c ≡ false
    → kind_of b.input c.input ≡ frame_message
    → length xs ≤ 96
    → NoEof (x ∷ xs)
    → is_eof e ≡ true
    → is_corrupt (inputs_of (x ∷ xs)) ≡ false
    → HasPrefix valid_reading_rules (c_string (line_of (inputs_of (x ∷ xs))))
    → marks (line_of (inputs_of (x ∷ xs))) ≤ 3
    → InStep call.characters t.memory t.lcd
    → let line : List ℕ = line_of (inputs_of (x ∷ xs)) in
      let frame : List (ℕ × SniffByte) = (t0, b) ∷ (t1, c) ∷ ((x ∷ xs) ++ ((t2, e) ∷ [])) in
      let ctx' : Context = accept_all firmware frame ctx in
      let t' : Task = display_status true true call now ann_now ctx'.display ctx'.message t in
      InStep call.characters t'.memory t'.lcd
      × ShowsAt call.characters call.clock t'.memory t'.lcd.misa (cells_of ctx'.display)
      × (spelled_all (cells_of ctx'.display) ++ drop (used line 12 0) line ≡ line)
frame_on_lcd ctx t0 t1 t2 b c e x xs call now ann_now t v n hb kb hc k room no_eof he clean begins
      few step =
    let line : List ℕ = line_of (inputs_of (x ∷ xs)) in
    let ctx' : Context =
      accept_all firmware ((t0, b) ∷ (t1, c) ∷ ((x ∷ xs) ++ ((t2, e) ∷ []))) ctx in
    let main : ctx'.display.main ≡ line =
      (reading_frame ctx t0 t1 t2 b c e x xs v n hb kb hc k room no_eof he clean begins).1 in
    let (plain, valid) =
      message_frame-message firmware ctx t0 t1 t2 b c e x xs v n hb kb hc k room no_eof he clean
        (line-reading (inputs_of (x ∷ xs)) begins) in
    let shown =
      display_status-known call now ann_now ctx'.display ctx'.message t step
        (rw (plain, valid) refl) (ap length main ∙ length-line_of (inputs_of (x ∷ xs)))
        (rw main few) in
    (
      shown.0,
      shown.1,
      subst (λ l. spelled_all (cells_of ctx'.display) ++ drop (used l 12 0) l ≡ l) main shown.2,
    )
