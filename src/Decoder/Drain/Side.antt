-- ===== src/Decoder/Drain/Side.antt =====
-- What a byte pair does to the display, the frame, the message and the shift window does not
-- depend on the FIFO, the accumulators or the `dbg_` fields.
use lcdpico_34401a.Common.{ℕ, ◌≡◌, refl, ◌∙◌, arith, List, [], ◌∷◌, Bool-cases, inl, inr}
use lcdpico_34401a.Decoder.State.{
  SniffByte, FrameState, frame_init, frame_unknown, frame_message, frame_annunciators,
  frame_control, frame_button, Sniff, Debug, Context,
}
use lcdpico_34401a.Decoder.Process.{
  Scanners, last_bytes_are_eof, store_byte, at_eof, in_frame, finish_message, on_annunciators,
  on_button, press_button, dispatch, guard_overflow, accept,
}
use mathlib.Core.Path.{subst}
use lcdpico_34401a.Decoder.Valid.{SameParse}
use lcdpico_34401a.Decoder.Frames.{accept_all}

pub SameParse-trans : (a b c : Context) → SameParse a b → SameParse b c → SameParse a c
SameParse-trans a b c p q = (q.0 ∙ p.0, q.1 ∙ p.1, q.2 ∙ p.2, q.3 ∙ p.3)

abbrev pub with_side : Debug → Sniff → Context → Context
with_side d s ctx = record ctx { debug = d; sniff = s }

at_eof-SameParse :
    (rx : Scanners) (now : ℕ) (st : FrameState) (d : Debug) (s : Sniff) (ctx : Context)
    → SameParse (at_eof rx now st ctx) (at_eof rx now st (with_side d s ctx))
unfolding at_eof finish_message on_annunciators
at_eof-SameParse rx now frame_init d s ctx = (refl, refl, refl, refl)
at_eof-SameParse rx now frame_unknown d s ctx = (refl, refl, refl, refl)
at_eof-SameParse rx now frame_message d s ctx = (refl, refl, refl, refl)
at_eof-SameParse rx now frame_annunciators d s ctx = (refl, refl, refl, refl)
at_eof-SameParse rx now frame_control d s ctx = (refl, refl, refl, refl)
at_eof-SameParse rx now frame_button d s ctx = (refl, refl, refl, refl)

in_frame-SameParse :
    (now : ℕ) (st : FrameState) (d : Debug) (s : Sniff) (ctx : Context)
    → SameParse (in_frame now st ctx) (in_frame now st (with_side d s ctx))
unfolding in_frame on_button press_button
in_frame-SameParse now frame_init d s ctx = (refl, refl, refl, refl)
in_frame-SameParse now frame_unknown d s ctx = (refl, refl, refl, refl)
in_frame-SameParse now frame_message d s ctx = (refl, refl, refl, refl)
in_frame-SameParse now frame_annunciators d s ctx = (refl, refl, refl, refl)
in_frame-SameParse now frame_control d s ctx = (refl, refl, refl, refl)
in_frame-SameParse now frame_button d s ctx = ground arith

guard_overflow-SameParse :
    (a b : Context) → SameParse a b → SameParse (guard_overflow a) (guard_overflow b)
unfolding guard_overflow
guard_overflow-SameParse a b p = ground arith

pub accept-SameParse :
    (rx : Scanners) (now : ℕ) (b : SniffByte) (d : Debug) (s : Sniff) (ctx : Context)
    → SameParse (accept rx now b ctx) (accept rx now b (with_side d s ctx))
unfolding accept dispatch
accept-SameParse rx now b d s ctx =
    let f = store_byte b ctx.frame in
    elim (Bool-cases (last_bytes_are_eof f)) [
      | inl e ↦ rw e (
          guard_overflow-SameParse _ _
            (at_eof-SameParse rx now f.frame_state d s (record ctx { frame = f })))
      | inr e ↦ rw e (
          guard_overflow-SameParse _ _
            (in_frame-SameParse now f.frame_state d s (record ctx { frame = f })))
    ]

side-eq : (a b : Context) → SameParse a b → with_side b.debug b.sniff a ≡ b
side-eq a b p = ground arith

pub accept_all-SameParse :
    (rx : Scanners) (bs : List (ℕ × SniffByte)) (a b : Context)
    → SameParse a b
    → SameParse (accept_all rx bs a) (accept_all rx bs b)
unfolding accept_all
accept_all-SameParse rx [] a b p = p
accept_all-SameParse rx ((now, x) ∷ bs) a b p =
    accept_all-SameParse rx bs (accept rx now x a) (accept rx now x b) (
      subst (λ c. SameParse (accept rx now x a) (accept rx now x c)) (side-eq a b p)
        (accept-SameParse rx now x b.debug b.sniff a))

sniff-at_eof :
    (rx : Scanners) (now : ℕ) (st : FrameState) (ctx : Context)
    → (at_eof rx now st ctx).sniff ≡ ctx.sniff
unfolding at_eof finish_message on_annunciators
sniff-at_eof rx now frame_init ctx = refl
sniff-at_eof rx now frame_unknown ctx = refl
sniff-at_eof rx now frame_message ctx = refl
sniff-at_eof rx now frame_annunciators ctx = refl
sniff-at_eof rx now frame_control ctx = refl
sniff-at_eof rx now frame_button ctx = refl

sniff-in_frame :
    (now : ℕ) (st : FrameState) (ctx : Context) → (in_frame now st ctx).sniff ≡ ctx.sniff
unfolding in_frame on_button press_button
sniff-in_frame now frame_init ctx = refl
sniff-in_frame now frame_unknown ctx = refl
sniff-in_frame now frame_message ctx = refl
sniff-in_frame now frame_annunciators ctx = refl
sniff-in_frame now frame_control ctx = refl
sniff-in_frame now frame_button ctx = ground arith

-- A byte pair leaves the FIFO to the loop.
pub sniff-accept :
    (rx : Scanners) (now : ℕ) (b : SniffByte) (ctx : Context)
    → (accept rx now b ctx).sniff ≡ ctx.sniff
unfolding accept dispatch guard_overflow
sniff-accept rx now b ctx =
    let f = store_byte b ctx.frame in
    let stored : Context = record ctx { frame = f } in
    ground
      (arith, sniff-at_eof rx now f.frame_state stored, sniff-in_frame now f.frame_state stored)
