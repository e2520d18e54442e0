-- ===== src/Decoder/Scanned.antt =====
-- The decoder with the scanners of src/regex_34401a.c: what it makes of a finished line.
pub mod Frames
use lcdpico_34401a.Common.{
  ℕ, suc, ◌≤◌, ◌<◌, ◌≡◌, ◌↔◌, ◌⊎◌, inl, inr, refl, sym, ap, ◌∙◌, arith, Bool, true, false, not,
  ◌&&◌, ◌||◌, List, [], ◌∷◌, ◌++◌, map, all, take, drop, length, ltb, leb, ◌==◌, if◌then◌else◌,
  Option, none, some, before, Bool-cases,
}
use lcdpico_34401a.Util.Copies.{c_string, is_zero}
use lcdpico_34401a.Scanner.Regex.{Regex, HasPrefix}
use lcdpico_34401a.Scanner.Grammar.{
  valid_reading_rules, in_menu_rules, menu_text_in_code, text_display_rules, parameter_in_code,
}
use lcdpico_34401a.Scanner.Simulation.Agree.{AllBytes}
use lcdpico_34401a.Scanner.Lines.{
  regex_valid_reading, regex_in_menu, regex_text_display, Answers, regex_valid_reading-Answers,
  regex_in_menu-Answers, regex_text_display-Answers,
}
use lcdpico_34401a.Decoder.State.{blank_line, Message, Context, SniffByte, frame_message}
use lcdpico_34401a.Decoder.Message.{isprint}
use lcdpico_34401a.Decoder.Process.{Scanners, judge}
use lcdpico_34401a.Decoder.Text.{cell, glyphs, line_of, is_corrupt}
use lcdpico_34401a.Decoder.Text.Whole.{inputs_of, message_frame}
use lcdpico_34401a.Decoder.Frames.{accept_all, is_eof, NoEof}

-- A scanner that faulted would have no answer; these do not fault.
abbrev answer : Option Bool → Bool
answer none = false
answer (some b) = b

-- The scanners read the line up to its terminator.
abbrev pub firmware : Scanners
firmware = record {
  valid_reading = λ s. answer (regex_valid_reading (c_string s));
  in_menu = λ s. answer (regex_in_menu (c_string s));
  text_display = λ s. answer (regex_text_display (c_string s));
}

pub Answers-answer :
    (o : Option Bool) (r : Regex) (s : List ℕ) → Answers o r s → (answer o ≡ true) ↔ HasPrefix r s
Answers-answer o r s (b, e, h) = rw e h

-- A message that is not yet judged.
pub record Unjudged (m : Message) : Type 0 where
  pub is_clean : m.corrupt_msg ≡ false
  pub no_reading : m.valid_reading ≡ false
  pub no_menu : m.menu_msg ≡ false
  pub has_bytes : AllBytes (c_string m.msg_work)

-- What the verdict on a line means.
abbrev pub Judged : Message → Message → Type 0 → Type 0 → Type 0 → Type 0
Judged m m' R N D =
    ((m'.valid_reading ≡ true) ↔ R)
    × ((m'.menu_msg ≡ true) ↔ ((¬ R) × N))
    × ((m'.corrupt_msg ≡ true) ↔ ((¬ R) × ((¬ N) × (¬ D))))
    × (m'.msg_work ≡ m.msg_work)

clash : false ≡ true → ⊥
clash e = cc

both-reflect :
    {P Q : Type 0} (x y : Bool) → (x ≡ true) ↔ P → (y ≡ true) ↔ Q → (x && y ≡ true) ↔ (P × Q)
both-reflect true y f g = (λ e. (f.0 refl, g.0 e), λ (p, q). g.1 q)
both-reflect false y f g = (λ e. cc, λ (p, q). f.1 p)

not-reflect : {P : Type 0} (x : Bool) → (x ≡ true) ↔ P → (not x ≡ true) ↔ (¬ P)
not-reflect true f = (λ e. cc, λ np. absurd (np (f.0 refl)))
not-reflect false f = (λ e p. clash (f.1 p), λ np. refl)

judge-fields :
    (rx : Scanners) (m : Message)
    → Unjudged m
    → let a : Bool = rx.valid_reading m.msg_work in
      let b : Bool = rx.in_menu m.msg_work in
      let c : Bool = rx.text_display m.msg_work in
      ((judge rx m).valid_reading ≡ a)
      × ((judge rx m).menu_msg ≡ not a && b)
      × ((judge rx m).corrupt_msg ≡ not a && (not b && not c))
      × ((judge rx m).msg_work ≡ m.msg_work)
unfolding judge
judge-fields rx m u = ground (arith, u.is_clean, u.no_reading, u.no_menu)

judge_lem :
    (rx : Scanners) (m : Message) {R N D : Type 0}
    → Unjudged m
    → (rx.valid_reading m.msg_work ≡ true) ↔ R
    → (rx.in_menu m.msg_work ≡ true) ↔ N
    → (rx.text_display m.msg_work ≡ true) ↔ D
    → Judged m (judge rx m) R N D
judge_lem rx m u r n d =
    let a : Bool = rx.valid_reading m.msg_work in
    let b : Bool = rx.in_menu m.msg_work in
    let c : Bool = rx.text_display m.msg_work in
    let (va, vb, vc, same) = judge-fields rx m u in
    let none_shown = both-reflect (not b) (not c) (not-reflect b n) (not-reflect c d) in
    (
      rw va r,
      rw vb (both-reflect (not a) b (not-reflect a r) n),
      rw vc (both-reflect (not a) (not b && not c) (not-reflect a r) none_shown),
      same,
    )

-- With the scanners of the firmware, a finished line whose characters were all printable is a
-- reading exactly if the rules of a reading match its beginning, a menu line exactly if those do not
-- and the rules of a menu line do, and corrupt exactly if neither do and no character of the class
-- of `regex_text_display` stands at its beginning. The line itself stays.
pub judge-firmware :
    (m : Message)
    → Unjudged m
    → let line : List ℕ = c_string m.msg_work in
      Judged m
        (judge firmware m)
        (HasPrefix valid_reading_rules line)
        (HasPrefix (in_menu_rules menu_text_in_code) line)
        (HasPrefix (text_display_rules parameter_in_code) line)
judge-firmware m u =
    let line : List ℕ = c_string m.msg_work in
    let reading =
      Answers-answer (regex_valid_reading line) valid_reading_rules line
        (regex_valid_reading-Answers line u.has_bytes) in
    let menu =
      Answers-answer (regex_in_menu line) (in_menu_rules menu_text_in_code) line
        (regex_in_menu-Answers line u.has_bytes) in
    let shown =
      Answers-answer (regex_text_display line) (text_display_rules parameter_in_code) line
        (regex_text_display-Answers line u.has_bytes) in
    judge_lem firmware m u reading menu shown
