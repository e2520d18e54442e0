-- ===== src/Decoder/Text/Line.antt =====
-- The bytes of a message leave the line that they spell.
use lcdpico_34401a.Common.{
  ℕ, ◌+◌, ◌≤◌, ◌≡◌, refl, ap, sym, ◌∙◌, arith, Bool, false, not, ◌||◌, List, [], ◌∷◌, ◌++◌, length,
  set, ltb, if◌then◌else◌, min, length-append, Bool-cases, inl, inr, ltb→lt,
}
use mathlib.Core.Bool.{or_assoc}
use lcdpico_34401a.Decoder.State.{Message}
use lcdpico_34401a.Decoder.Message.{
  isprint, iscntrl, putc_safe, mark_blink, put_byte, start_line, message_byte,
}
use lcdpico_34401a.Decoder.Text.{glyph, glyphs, cell, message_bytes}

-- The line with characters put from index `i` on, which stops at the last cell.
unfoldable pub fill : List ℕ → ℕ → List ℕ → List ℕ
fill line i [] = line
fill line i (g ∷ gs) = if ltb i 15 then fill (set line i (cell g)) (i + 1) gs else line

-- Whether one of these characters spoils the line.
unfoldable pub spoils : ℕ → List ℕ → Bool
spoils i [] = false
spoils i (g ∷ gs) = if ltb i 15 then not (isprint g) || spoils (i + 1) gs else false

pub record Puts (m m' : Message) (gs : List ℕ) : Type 0 where
  pub line : m'.msg_work ≡ fill m.msg_work m.msg_idx gs
  pub idx : m'.msg_idx ≡ min 15 (m.msg_idx + length gs)
  pub corrupt : m'.corrupt_msg ≡ (m.corrupt_msg || spoils m.msg_idx gs)
  pub started : m'.msg_work_need_reset ≡ m.msg_work_need_reset
  pub reading : m'.valid_reading ≡ m.valid_reading

putc_safe-Puts : (m : Message) (c : ℕ) → m.msg_idx ≤ 15 → Puts m (putc_safe m c) (c ∷ [])
unfolding putc_safe fill spoils cell isprint iscntrl
putc_safe-Puts m c h = ground arith

-- A blink mark leaves the line alone.
mark_blink-Puts :
    (m : Message) (c : ℕ) → m.msg_idx ≤ 15 → Puts m (putc_safe (mark_blink m) c) (c ∷ [])
mark_blink-Puts m c h =
    let marked : m.msg_idx ≡ (mark_blink m).msg_idx = unfold mark_blink in ground arith in
    let put = putc_safe-Puts (mark_blink m) c (rw (← marked) h) in unfold mark_blink in ground arith

nothing-Puts : (m : Message) → m.msg_idx ≤ 15 → Puts m m []
unfolding fill spoils
nothing-Puts m h = ground arith

pub put_byte-Puts : (m : Message) (b : ℕ) → m.msg_idx ≤ 15 → Puts m (put_byte m b) (glyph b)
unfolding put_byte glyph
put_byte-Puts m b h = ground (
  arith,
  putc_safe-Puts m 46 h,
  putc_safe-Puts m 44 h,
  putc_safe-Puts m 58 h,
  mark_blink-Puts m 58 h,
  nothing-Puts m h,
  putc_safe-Puts m b h,
)

fill-full : (line : List ℕ) (i : ℕ) (gs : List ℕ) → 15 ≤ i → fill line i gs ≡ line
unfolding fill
fill-full line i [] h = refl
fill-full line i (g ∷ gs) h = ground arith

spoils-full : (i : ℕ) (gs : List ℕ) → 15 ≤ i → spoils i gs ≡ false
unfolding spoils
spoils-full i [] h = refl
spoils-full i (g ∷ gs) h = ground arith

fill-append :
    (line : List ℕ) (i j : ℕ) (gs hs : List ℕ)
    → i ≤ 15
    → j ≡ min 15 (i + length gs)
    → fill line i (gs ++ hs) ≡ fill (fill line i gs) j hs
unfolding fill
fill-append line i j [] hs h e = ap (λ k. fill line k hs) (omega arith)
fill-append line i j (g ∷ gs) hs h e = elim (Bool-cases (ltb i 15)) [
  | inl more ↦ rw more (
      fill-append (set line i (cell g)) (i + 1) j gs hs (omega (arith, ltb→lt i 15 more))
        (omega arith))
  | inr full ↦ rw full (sym (fill-full line j hs (ground arith)))
]

spoils-append :
    (i j : ℕ) (gs hs : List ℕ)
    → i ≤ 15
    → j ≡ min 15 (i + length gs)
    → spoils i (gs ++ hs) ≡ (spoils i gs || spoils j hs)
unfolding spoils
spoils-append i j [] hs h e = ap (λ k. spoils k hs) (omega arith)
spoils-append i j (g ∷ gs) hs h e = elim (Bool-cases (ltb i 15)) [
  | inl more ↦ rw more (
      rw (spoils-append (i + 1) j gs hs (omega (arith, ltb→lt i 15 more)) (omega arith))
        (sym (or_assoc (not (isprint g)) (spoils (i + 1) gs) (spoils j hs))))
  | inr full ↦ rw full (sym (spoils-full j hs (ground arith)))
]

pub Puts-trans :
    (m m' m'' : Message) (gs hs : List ℕ)
    → m.msg_idx ≤ 15
    → Puts m m' gs
    → Puts m' m'' hs
    → Puts m m'' (gs ++ hs)
Puts-trans m m' m'' gs hs h p q = record {
  line =
      q.line ∙ (rw p.line refl ∙ sym (fill-append m.msg_work m.msg_idx m'.msg_idx gs hs h p.idx));
  idx = omega (arith, p.idx, q.idx, length-append gs hs);
  corrupt =
      q.corrupt
      ∙ (rw p.corrupt (or_assoc m.corrupt_msg (spoils m.msg_idx gs) (spoils m'.msg_idx hs))
          ∙ ap (λ t. m.corrupt_msg || t) (sym (spoils-append m.msg_idx m'.msg_idx gs hs h p.idx)));
  started = q.started ∙ p.started;
  reading = q.reading ∙ p.reading;
}

-- Once the line is started, each further byte puts its character.
pub message_bytes-Puts :
    (bs : List ℕ) (m : Message)
    → m.msg_idx ≤ 15
    → m.msg_work_need_reset ≡ false
    → Puts m (message_bytes bs m) (glyphs bs)
unfolding message_bytes glyphs
message_bytes-Puts [] m h e = nothing-Puts m h
message_bytes-Puts (b ∷ bs) m h e =
    let same : message_byte m b ≡ put_byte m b = unfold message_byte start_line in rw e in
    let one = put_byte-Puts m b h in
    rw same (
      Puts-trans m (put_byte m b) (message_bytes bs (put_byte m b)) (glyph b) (glyphs bs) h one
        (message_bytes-Puts bs (put_byte m b) (omega (arith, one.idx)) (one.started ∙ e)))
