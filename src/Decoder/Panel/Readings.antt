-- ===== src/Decoder/Panel/Readings.antt =====
-- What annunciator and control frames show.
use lcdpico_34401a.Common.{
  ℕ, ◌+◌, ◌*◌, ◌/◌, ◌%◌, ◌<◌, ◌≤◌, ◌≡◌, inl, inr, refl, ap, ap₂, ◌∙◌, arith, true, false, ◌&&◌,
  List, [], ◌∷◌, ◌++◌, length, get_or, ltb, Bool, ◌||◌, get_or-set_self, get_or-set_ne, ◌==◌,
  bit_and, bit_or, bit_and_step, bit_and-zero, and_fields, and_ones, or_fields, or_high,
  bit_or-zero, inc32, if◌then◌else◌,
}
use mathlib.Core.Path.{subst}
use lcdpico_34401a.Decoder.State.{
  SniffByte, frame_unknown, frame_annunciators, frame_control, Display, Frame, Context,
}
use lcdpico_34401a.Decoder.Publish.{
  publish_annunciators, control_position, set_blink, decode_control,
}
use lcdpico_34401a.Decoder.Process.{Scanners, store_byte, enter, end_frame, at_eof, on_annunciators}
use lcdpico_34401a.Decoder.Valid.{FrameIsValid}
use lcdpico_34401a.Decoder.Frames.{
  is_eof, accept_all, NoEof, buf_len-store_byte, store_byte-FrameIsValid,
}
use lcdpico_34401a.Decoder.Frames.Kinds.{IsIdle, kind_of, opened, opened-FrameIsValid}
use lcdpico_34401a.Decoder.Panel.{gathered, store_all, store_all-Gathers, whole_frame}

and_not_shift : (w : ℕ) → w < 65536 → bit_and w 0xf7ff ≡ w / 4096 * 4096 + w % 2048
and_not_shift w h =
    let split : w ≡ w / 2048 * 2048 + w % 2048 = omega arith in
    let low : bit_and (w % 2048) 2047 ≡ w % 2048 = and_ones 11 (w % 2048) (omega arith) in
    let high : bit_and (w / 2048 / 2) 15 ≡ w / 2048 / 2 = and_ones 4 (w / 2048 / 2) (omega arith) in
    ap (λ t. bit_and t 0xf7ff) split
    ∙ (and_fields 11 (w / 2048) 30 (w % 2048) 2047 (omega arith) (omega arith)
        ∙ omega (arith, bit_and_step (w / 2048) 30, low, high))

and_shift : (s : ℕ) → bit_and s 0x800 ≡ s / 2048 % 2 * 2048
and_shift s =
    let split : s ≡ s / 2048 * 2048 + s % 2048 = omega arith in
    ap (λ t. bit_and t 0x800) split
    ∙ (and_fields 11 (s / 2048) 1 (s % 2048) 0 (omega arith) (omega arith)
        ∙ omega (
          arith,
          bit_and_step (s / 2048) 1,
          bit_and-zero (s / 2048 / 2),
          bit_and-zero (s % 2048),
        ))

-- The word `w` with bit 11 taken from `s`.
abbrev pub with_shift_of : ℕ → ℕ → ℕ
with_shift_of s w = w / 4096 * 4096 + s / 2048 % 2 * 2048 + w % 2048

merge-eq : (s w : ℕ) → w < 65536 → bit_or (bit_and w 0xf7ff) (bit_and s 0x800) ≡ with_shift_of s w
merge-eq s w h =
    let even : w / 4096 * 4096 + w % 2048 ≡ w / 4096 * 2 * 2048 + w % 2048 = omega arith in
    let bit : s / 2048 % 2 * 2048 ≡ s / 2048 % 2 * 2048 + 0 = omega arith in
    ap₂ bit_or (and_not_shift w h ∙ even) (and_shift s ∙ bit)
    ∙ (or_fields 11 (w / 4096 * 2) (s / 2048 % 2) (w % 2048) 0 (omega arith) (omega arith)
        ∙ omega (arith, or_high 1 (w / 4096) (s / 2048 % 2) (omega arith), bit_or-zero (w % 2048)))

publish_annunciators-eq :
    (h l : ℕ) (d : Display)
    → h < 256
    → l < 256
    → ((publish_annunciators h l d).ann_state ≡ with_shift_of d.ann_state (h * 256 + l))
      × ((publish_annunciators h l d).new_data_counter ≡ (
          if with_shift_of d.ann_state (h * 256 + l) == d.ann_state
          then d.new_data_counter
          else inc32 d.new_data_counter))
      × ((publish_annunciators h l d).main ≡ d.main)
unfolding publish_annunciators
publish_annunciators-eq h l d p q =
    let word : bit_or (h * 256) l ≡ h * 256 + l = or_high 8 h l q in
    let merged = merge-eq d.ann_state (h * 256 + l) (omega arith) in
    rw word (rw merged (ground arith))

-- A byte that is stored lies at the end, and the others stay.
get_or-store_byte_self :
    (b : SniffByte) (f : Frame)
    → FrameIsValid f
    → get_or (store_byte b f).input_buf f.buf_len 0 ≡ b.input
unfolding store_byte
get_or-store_byte_self b f v = get_or-set_self f.input_buf f.buf_len b.input 0 (omega arith)

get_or-store_byte_ne :
    (b : SniffByte) (f : Frame) (i : ℕ)
    → i < f.buf_len
    → get_or (store_byte b f).input_buf i 0 ≡ get_or f.input_buf i 0
unfolding store_byte
get_or-store_byte_ne b f i h = get_or-set_ne f.input_buf f.buf_len i b.input 0 (omega arith)

third_fourth :
    (x y : ℕ × SniffByte) (zs : List (ℕ × SniffByte)) (f : Frame)
    → FrameIsValid f
    → f.buf_len ≡ 2
    → length zs ≤ 95
    → (get_or (store_all (x ∷ y ∷ zs) f).input_buf 2 0 ≡ x.1.input)
      × (get_or (store_all (x ∷ y ∷ zs) f).input_buf 3 0 ≡ y.1.input)
third_fourth (tx, x) (ty, y) zs f v len room =
    let valid_x = store_byte-FrameIsValid x f v (omega arith) in
    let len_x = buf_len-store_byte x f v in
    let valid_y = store_byte-FrameIsValid y (store_byte x f) valid_x (omega arith) in
    let len_y = buf_len-store_byte y (store_byte x f) valid_x in
    let rest = store_all-Gathers zs (store_byte y (store_byte x f)) valid_y (omega arith) in
    (
      rest.kept 2 (omega arith)
          ∙ (get_or-store_byte_ne y (store_byte x f) 2 (omega arith)
              ∙ subst (λ i. get_or (store_byte x f).input_buf i 0 ≡ x.input) len
                  (get_or-store_byte_self x f v)),
      rest.kept 3 (omega arith)
          ∙ subst (λ i. get_or (store_byte y (store_byte x f)).input_buf i 0 ≡ y.input)
              (omega arith) (get_or-store_byte_self y (store_byte x f) valid_x),
    )

-- A whole annunciator frame, read from an idle frame: an opening pair that is neither an end of
-- frame nor a button's, a second pair that makes it an annunciator frame, the low byte, the high
-- byte, up to 95 further pairs, none of which ends the frame, and an end-of-frame pair. Then the
-- annunciators are the two bytes except bit 11, SHIFT, which stays; new data is announced exactly
-- if that changes them; the line of text and the message being assembled stay; and the decoder is
-- idle.
pub annunciator_frame :
    (rx : Scanners) (ctx : Context) (t0 t1 t2 : ℕ) (b c e : SniffByte) (x y : ℕ × SniffByte)
    (zs : List (ℕ × SniffByte))
    → IsIdle ctx.frame
    → is_eof b ≡ false
    → (b.input == 0x00 && b.output == 0x77) ≡ false
    → is_eof c ≡ false
    → kind_of b.input c.input ≡ frame_annunciators
    → length zs ≤ 95
    → NoEof (x ∷ y ∷ zs)
    → x.1.input < 256
    → y.1.input < 256
    → is_eof e ≡ true
    → let ctx' : Context =
        accept_all rx ((t0, b) ∷ (t1, c) ∷ ((x ∷ y ∷ zs) ++ ((t2, e) ∷ []))) ctx in
      let ann : ℕ = with_shift_of ctx.display.ann_state (y.1.input * 256 + x.1.input) in
      (ctx'.display.ann_state ≡ ann)
      × (ctx'.display.new_data_counter ≡ (
          if ann == ctx.display.ann_state
          then ctx.display.new_data_counter
          else inc32 ctx.display.new_data_counter))
      × (ctx'.display.main ≡ ctx.display.main)
      × (ctx'.message ≡ ctx.message)
      × (ctx'.frame.frame_state ≡ frame_unknown)
      × (ctx'.frame.buf_len ≡ 0)
unfolding at_eof on_annunciators end_frame
annunciator_frame rx ctx t0 t1 t2 b c e x y zs v hb kb hc k room no_eof hx hy he =
    let w =
      whole_frame rx ctx t0 t1 t2 frame_annunciators b c e (x ∷ y ∷ zs) v hb kb hc k (inl refl)
        (omega arith) no_eof he in
    let pub_eq = publish_annunciators-eq y.1.input x.1.input ctx.display hy hx in
    let fits = opened-FrameIsValid frame_annunciators b c ctx.frame v in
    let f : Frame = gathered frame_annunciators b c (x ∷ y ∷ zs) ctx.frame in
    let bytes = third_fourth x y zs (opened frame_annunciators b c ctx).frame fits.0 fits.1 room in
    let len = buf_len-store_byte e f w.0.valid in
    let long = w.0.len in
    let low = get_or-store_byte_ne e f 2 (omega arith) ∙ bytes.0 in
    let high = get_or-store_byte_ne e f 3 (omega arith) ∙ bytes.1 in
    rw w.1 (ground (arith, pub_eq, len, long, fits.1, low, high))

first_second :
    (b c : SniffByte) (f : Frame)
    → IsIdle f
    → (get_or (store_byte c (store_byte b f)).input_buf 0 0 ≡ b.input)
      × (get_or (store_byte c (store_byte b f)).input_buf 1 0 ≡ c.input)
first_second b c f v =
    let valid = store_byte-FrameIsValid b f v.valid (omega (arith, v.empty)) in
    let len = buf_len-store_byte b f v.valid in
    let at : (store_byte b f).buf_len ≡ 1 = omega (arith, v.empty) in
    (
      get_or-store_byte_ne c (store_byte b f) 0 (omega arith)
          ∙ subst (λ i. get_or (store_byte b f).input_buf i 0 ≡ b.input) v.empty
              (get_or-store_byte_self b f v.valid),
      subst (λ i. get_or (store_byte c (store_byte b f)).input_buf i 0 ≡ c.input) at
          (get_or-store_byte_self c (store_byte b f) valid),
    )

-- The two bytes of the commands that make a position blink, from the first position on.
abbrev pub blinking : List ℕ
blinking =
    0x0049 ∷ 0x7149 ∷ 0x6249 ∷ 0x1349 ∷ 0x5449 ∷ 0x2549 ∷ 0x3649 ∷ 0x4749 ∷ 0x3849 ∷ 0x4949 ∷ 0x5a49
    ∷ 0x2b49 ∷ []

-- The bit of the place at which a command stands among others, from bit `m` on.
abbrev pub blinked : ℕ → ℕ → ℕ → List ℕ → ℕ
blinked cmd m old [] = old
blinked cmd m old (x ∷ xs) = if cmd == x then m else blinked cmd (2 * m) old xs

-- Whether a command is known.
abbrev pub is_one_of : ℕ → List ℕ → Bool
is_one_of cmd [] = false
is_one_of cmd (x ∷ xs) = cmd == x || is_one_of cmd xs

set_blink-eq :
    (cmd : ℕ) (d : Display)
    → let d' : Display = set_blink (control_position cmd) d in
      let known : Bool = is_one_of cmd blinking in
      (d'.blink_mask ≡ blinked cmd 1 d.blink_mask blinking)
      × (d'.new_data_counter ≡ (if known then inc32 d.new_data_counter else d.new_data_counter))
      × (d'.main_counter ≡ (if known then inc32 d.main_counter else d.main_counter))
      × (d'.main ≡ d.main)
      × (d'.ann_state ≡ d.ann_state)
      × (d'.ann_counter ≡ d.ann_counter)
      × (d'.last_reading ≡ d.last_reading)
unfolding set_blink control_position
set_blink-eq cmd d = ground arith

-- A whole control frame, read from an idle frame: an opening pair that is neither an end of frame
-- nor a button's, a second pair that makes it a control frame, up to 97 further pairs that do not
-- end it, and an end-of-frame pair. Then the position is the only one that blinks at which the
-- word of its first two bytes stands in the table of commands, and the counters of the line and of
-- new data go up; if the word is not in the table both stay. The line, the last reading, the
-- annunciators and the message being assembled stay, and the decoder is idle.
pub control_frame :
    (rx : Scanners) (ctx : Context) (t0 t1 t2 : ℕ) (b c e : SniffByte) (zs : List (ℕ × SniffByte))
    → IsIdle ctx.frame
    → is_eof b ≡ false
    → (b.input == 0x00 && b.output == 0x77) ≡ false
    → is_eof c ≡ false
    → kind_of b.input c.input ≡ frame_control
    → length zs ≤ 97
    → NoEof zs
    → c.input < 256
    → is_eof e ≡ true
    → let ctx' : Context = accept_all rx ((t0, b) ∷ (t1, c) ∷ (zs ++ ((t2, e) ∷ []))) ctx in
      let d : Display = ctx.display in
      let d' : Display = ctx'.display in
      let cmd : ℕ = b.input * 256 + c.input in
      let known : Bool = is_one_of cmd blinking in
      (d'.blink_mask ≡ blinked cmd 1 d.blink_mask blinking)
      × (d'.new_data_counter ≡ (if known then inc32 d.new_data_counter else d.new_data_counter))
      × (d'.main_counter ≡ (if known then inc32 d.main_counter else d.main_counter))
      × (d'.main ≡ d.main)
      × (d'.ann_state ≡ d.ann_state)
      × (d'.ann_counter ≡ d.ann_counter)
      × (d'.last_reading ≡ d.last_reading)
      × (ctx'.message ≡ ctx.message)
      × (ctx'.frame.frame_state ≡ frame_unknown)
      × (ctx'.frame.buf_len ≡ 0)
unfolding at_eof decode_control end_frame enter
control_frame rx ctx t0 t1 t2 b c e zs v hb kb hc k room no_eof hl he =
    let w =
      whole_frame rx ctx t0 t1 t2 frame_control b c e zs v hb kb hc k (inr refl) room no_eof he in
    let fits = opened-FrameIsValid frame_control b c ctx.frame v in
    let f : Frame = gathered frame_control b c zs ctx.frame in
    let bytes = first_second b c ctx.frame v in
    let len = buf_len-store_byte e f w.0.valid in
    let long = w.0.len in
    let first =
      get_or-store_byte_ne e f 0 (omega arith) ∙ (w.0.kept 0 (omega (arith, fits.1)) ∙ bytes.0) in
    let second =
      get_or-store_byte_ne e f 1 (omega arith) ∙ (w.0.kept 1 (omega (arith, fits.1)) ∙ bytes.1) in
    let word = or_high 8 b.input c.input hl in
    let shown = set_blink-eq (b.input * 256 + c.input) ctx.display in
    let long_enough : ltb (store_byte e f).buf_len 2 ≡ false = ground (arith, len, long, fits.1) in
    rw w.1 (
      rw (long_enough, first, second, word)
        (shown.0, shown.1, shown.2, shown.3, shown.4, shown.5, shown.6, refl, refl, refl))
