-- ===== src/Decoder/Text/Spelled.antt =====
-- A message from its first byte: the line is blanked, and then it is the one that is described.
use lcdpico_34401a.Common.{
  ℕ, zero, suc, ◌+◌, ◌≡◌, refl, ap, ap₂, ◌∙◌, arith, true, false, not, ◌||◌, List, [], ◌∷◌, ◌++◌,
  map, take, drop, length, set, ltb, length-append,
}
use mathlib.Core.List.{append_assoc}
use lcdpico_34401a.Decoder.State.{blank_line, Message}
use lcdpico_34401a.Decoder.Message.{isprint, put_byte, start_line, message_byte}
use lcdpico_34401a.Decoder.Text.{
  glyph, glyphs, cell, line_of, has_unprintable, is_corrupt, message_bytes,
}
use lcdpico_34401a.Decoder.Text.Line.{fill, spoils, put_byte-Puts, Puts-trans, message_bytes-Puts}

set-middle :
    (pre xs : List ℕ) (x c : ℕ) (i : ℕ)
    → i ≡ length pre
    → set (pre ++ (x ∷ xs)) i c ≡ (pre ++ (c ∷ [])) ++ xs
set-middle [] xs x c zero e = refl
set-middle [] xs x c (suc i) e = absurd (omega arith)
set-middle (p ∷ pre) xs x c zero e = absurd (omega arith)
set-middle (p ∷ pre) xs x c (suc i) e = ap (λ t. p ∷ t) (set-middle pre xs x c i (omega arith))

-- Behind `i` cells that stay, `n` more can be put.
fill-prefix :
    (n i : ℕ) (pre xs gs : List ℕ)
    → i ≡ length pre
    → i + n ≡ 15
    → length xs ≡ suc n
    → fill (pre ++ xs) i gs
      ≡ pre ++ (take n (map cell gs) ++ drop (length (take n (map cell gs))) xs)
unfolding fill
fill-prefix zero i pre xs [] e p q = refl
fill-prefix zero i pre xs (g ∷ gs) e p q = ground arith
fill-prefix (suc n) i pre xs [] e p q = refl
fill-prefix (suc n) i pre [] (g ∷ gs) e p q = absurd (omega arith)
fill-prefix (suc n) i pre (x ∷ xs) (g ∷ gs) e p q =
    let more : ltb i 15 ≡ true = ground arith in
    rw more (
      rw (set-middle pre xs x (cell g) i e) (
        fill-prefix n (i + 1) (pre ++ (cell g ∷ [])) xs gs
          (omega (arith, length-append pre (cell g ∷ []))) (omega arith) (omega arith)
        ∙ append_assoc pre (cell g ∷ [])
            (take n (map cell gs) ++ drop (length (take n (map cell gs))) xs)))

spoils-eq : (n i : ℕ) (gs : List ℕ) → i + n ≡ 15 → spoils i gs ≡ has_unprintable (take n gs)
unfolding spoils has_unprintable
spoils-eq zero i [] p = refl
spoils-eq zero i (g ∷ gs) p = ground arith
spoils-eq (suc n) i [] p = refl
spoils-eq (suc n) i (g ∷ gs) p =
    let more : ltb i 15 ≡ true = ground arith in
    rw more (ap (λ t. not (isprint g) || t) (spoils-eq n (i + 1) gs (omega arith)))

record IsFresh (m : Message) : Type 0 where
  blank : m.msg_work ≡ blank_line
  at_start : m.msg_idx ≡ 0
  clean : m.corrupt_msg ≡ false
  begun : m.msg_work_need_reset ≡ false
  unread : m.valid_reading ≡ false

start_line-IsFresh : (m : Message) → m.msg_work_need_reset ≡ true → IsFresh (start_line m)
unfolding start_line
start_line-IsFresh m e = ground arith

fill_blank :
    (gs : List ℕ)
    → fill blank_line 0 gs
      ≡ take 15 (map cell gs) ++ drop (length (take 15 (map cell gs))) blank_line
fill_blank gs = fill-prefix 15 0 [] blank_line gs refl refl refl

-- A message of at least one byte, begun when the line is to be reset, leaves the line that its
-- bytes spell, and the line is marked corrupt exactly when it spells an unprintable character; it is not yet marked as a reading.
pub message_bytes-line :
    (b : ℕ) (bs : List ℕ) (m : Message)
    → m.msg_work_need_reset ≡ true
    → ((message_bytes (b ∷ bs) m).msg_work ≡ line_of (b ∷ bs))
      × ((message_bytes (b ∷ bs) m).corrupt_msg ≡ is_corrupt (b ∷ bs))
      × ((message_bytes (b ∷ bs) m).valid_reading ≡ false)
unfolding message_bytes message_byte line_of is_corrupt glyphs
message_bytes-line b bs m e =
    let fresh = start_line-IsFresh m e in
    let first = put_byte-Puts (start_line m) b (rw fresh.at_start (omega arith)) in
    let others =
      message_bytes-Puts bs (put_byte (start_line m) b) (omega (arith, first.idx))
        (first.started ∙ fresh.begun) in
    let all =
      Puts-trans (start_line m) (put_byte (start_line m) b)
        (message_bytes bs (put_byte (start_line m) b)) (glyph b) (glyphs bs)
        (rw fresh.at_start (omega arith)) first others in
    let gs = glyph b ++ glyphs bs in
    (
      all.line ∙ (ap₂ (λ l i. fill l i gs) fresh.blank fresh.at_start ∙ fill_blank gs),
      all.corrupt
          ∙ (ap₂ (λ c i. c || spoils i gs) fresh.clean fresh.at_start ∙ spoils-eq 15 0 gs refl),
      all.reading ∙ fresh.unread,
    )
