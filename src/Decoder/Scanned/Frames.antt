-- ===== src/Decoder/Scanned/Frames.antt =====
-- A message frame whose line is a reading, from the wire to the last reading.
use lcdpico_34401a.Common.{
  ℕ, zero, suc, ◌≤◌, ◌≡◌, inl, inr, refl, ◌∙◌, arith, Bool, true, false, ◌&&◌, List, [], ◌∷◌, ◌++◌,
  map, all, take, drop, length, ltb, ◌==◌, Bool-cases,
}
use lcdpico_34401a.Util.Copies.{c_string, is_zero}
use lcdpico_34401a.Scanner.Regex.{HasPrefix}
use lcdpico_34401a.Scanner.Grammar.{valid_reading_rules}
use lcdpico_34401a.Scanner.Simulation.Agree.{AllBytes}
use lcdpico_34401a.Scanner.Lines.{regex_valid_reading, regex_valid_reading-Answers}
use lcdpico_34401a.Decoder.State.{blank_line, Context, SniffByte, frame_message}
use lcdpico_34401a.Decoder.Message.{isprint}
use lcdpico_34401a.Decoder.Text.{cell, glyphs, line_of, is_corrupt}
use lcdpico_34401a.Decoder.Text.Whole.{inputs_of, message_frame}
use lcdpico_34401a.Decoder.Frames.{accept_all, is_eof, NoEof}
use lcdpico_34401a.Decoder.Frames.Kinds.{IsIdle, kind_of}
use lcdpico_34401a.Decoder.Scanned.{firmware, Answers-answer}

all-append : (p : ℕ → Bool) (s t : List ℕ) → all p s ≡ true → all p t ≡ true → all p (s ++ t) ≡ true
all-append p [] t h k = k
all-append p (c ∷ s) t h k =
    let here : p c ≡ true = ground (arith, h) in
    rw (here, all-append p s t (ground (arith, h)) k) refl

cell-byte : (c : ℕ) → ltb (cell c) 256 ≡ true
unfolding cell isprint
cell-byte c = ground arith

cells-bytes : (n : ℕ) (cs : List ℕ) → AllBytes (take n (map cell cs))
cells-bytes zero cs = refl
cells-bytes (suc n) [] = refl
cells-bytes (suc n) (c ∷ cs) = rw (cell-byte c, cells-bytes n cs) refl

drop-bytes : (n : ℕ) (s : List ℕ) → AllBytes s → AllBytes (drop n s)
drop-bytes zero s h = h
drop-bytes (suc n) [] h = refl
drop-bytes (suc n) (c ∷ s) h = drop-bytes n s (ground (arith, h))

before-bytes : (s : List ℕ) → AllBytes s → AllBytes (c_string s)
before-bytes [] h = refl
before-bytes (c ∷ s) h = elim (Bool-cases (is_zero c)) [
  | inl e ↦ rw e refl
  | inr e ↦
      let here : ltb c 256 ≡ true = ground (arith, h) in
      rw e (rw (here, before-bytes s (ground (arith, h))) refl)
]

line-bytes : (cs : List ℕ) → AllBytes (c_string (line_of cs))
unfolding line_of
line-bytes cs =
    let shown : List ℕ = take 15 (map cell (glyphs cs)) in
    before-bytes (shown ++ drop (length shown) blank_line) (
      all-append (λ x. ltb x 256) shown (drop (length shown) blank_line)
        (cells-bytes 15 (glyphs cs)) (drop-bytes (length shown) blank_line refl))

-- The scanner takes a line that begins as a reading.
pub line-reading :
    (cs : List ℕ)
    → HasPrefix valid_reading_rules (c_string (line_of cs))
    → firmware.valid_reading (line_of cs) ≡ true
line-reading cs begins =
    (Answers-answer (regex_valid_reading (c_string (line_of cs))) valid_reading_rules
        (c_string (line_of cs))
        (regex_valid_reading-Answers (c_string (line_of cs)) (line-bytes cs))).1
      begins

-- A whole message frame, as in `message_frame`, whose line is clean and begins as the rules of a
-- reading say, is the last reading: the decoder, its line and the scanner together.
pub reading_frame :
    (ctx : Context) (t0 t1 t2 : ℕ) (b c e : SniffByte) (x : ℕ × SniffByte)
    (xs : List (ℕ × SniffByte))
    → IsIdle ctx.frame
    → ctx.message.msg_work_need_reset ≡ true
    → is_eof b ≡ false
    → (b.input == 0x00 && b.output == 0x77) ≡ false
    → is_eof c ≡ false
    → kind_of b.input c.input ≡ frame_message
    → length xs ≤ 96
    → NoEof (x ∷ xs)
    → is_eof e ≡ true
    → is_corrupt (inputs_of (x ∷ xs)) ≡ false
    → let line : List ℕ = line_of (inputs_of (x ∷ xs)) in
      let frame : List (ℕ × SniffByte) = (t0, b) ∷ (t1, c) ∷ ((x ∷ xs) ++ ((t2, e) ∷ [])) in
      HasPrefix valid_reading_rules (c_string line)
      → ((accept_all firmware frame ctx).display.last_reading ≡ line)
        × ((accept_all firmware frame ctx).display.main ≡ line)
reading_frame ctx t0 t1 t2 b c e x xs v n hb kb hc k room no_eof he clean begins =
    let codes : List ℕ = inputs_of (x ∷ xs) in
    let shows = message_frame firmware ctx t0 t1 t2 b c e x xs v n hb kb hc k room no_eof he in
    let scanned = line-reading codes begins in (shows.1 ∙ rw (clean, scanned) refl, shows.0)
