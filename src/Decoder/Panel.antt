-- ===== src/Decoder/Panel.antt =====
-- Whole annunciator and control frames: their bytes are gathered, and read at the end.
pub mod Readings
use lcdpico_34401a.Common.{
  ℕ, suc, ◌+◌, ◌-◌, ◌*◌, ◌/◌, ◌%◌, ◌<◌, ◌≤◌, ◌≡◌, ◌≢◌, ◌⊎◌, inl, inr, refl, sym, ap, ◌∙◌, arith,
  Bool, true, false, ◌&&◌, List, [], ◌∷◌, ◌++◌, length, get_or, set, length-set, get_or-set_self,
  get_or-set_ne, ◌==◌, bit_and, bit_or, or_high, inc32, if◌then◌else◌, some,
}
use lcdpico_34401a.Decoder.State.{
  SniffByte, FrameState, frame_unknown, frame_annunciators, frame_control, Display, Frame, Context,
}
use lcdpico_34401a.Decoder.Publish.{
  publish_annunciators, control_position, set_blink, decode_control,
}
use lcdpico_34401a.Decoder.Process.{
  Scanners, store_byte, enter, end_frame, in_frame, at_eof, on_annunciators, accept,
}
use lcdpico_34401a.Decoder.Valid.{FrameIsValid}
use lcdpico_34401a.Decoder.Frames.{
  is_eof, stored, accept-eq-in_frame, accept-eq-at_eof, accept_all, accept_all-append, NoEof,
  buf_len-store_byte, store_byte-FrameIsValid,
}
use lcdpico_34401a.Decoder.Frames.Kinds.{IsIdle, kind_of, opened, opening, opened-FrameIsValid}

-- The two kinds of frame whose bytes are only gathered.
abbrev pub IsGathered : FrameState → Type 0
IsGathered s = (s ≡ frame_annunciators) ⊎ (s ≡ frame_control)

abbrev pub store_all : List (ℕ × SniffByte) → Frame → Frame
store_all [] f = f
store_all ((now, b) ∷ bs) f = store_all bs (store_byte b f)

accept_gathered :
    (rx : Scanners) (now : ℕ) (b : SniffByte) (ctx : Context)
    → FrameIsValid ctx.frame
    → IsGathered ctx.frame.frame_state
    → ctx.frame.buf_len < 99
    → is_eof b ≡ false
    → accept rx now b ctx ≡ stored b ctx
unfolding in_frame
accept_gathered rx now b ctx v (inl k) room h =
    accept-eq-in_frame rx now b ctx v h room ∙ ap (λ s. in_frame now s (stored b ctx)) k
accept_gathered rx now b ctx v (inr k) room h =
    accept-eq-in_frame rx now b ctx v h room ∙ ap (λ s. in_frame now s (stored b ctx)) k

-- Gathering keeps the kind and the bytes that are there.
pub record Gathers (f f' : Frame) (n : ℕ) : Type 0 where
  pub kind : f'.frame_state ≡ f.frame_state
  pub valid : FrameIsValid f'
  pub len : f'.buf_len ≡ f.buf_len + n
  pub kept : (i : ℕ) → i < f.buf_len → get_or f'.input_buf i 0 ≡ get_or f.input_buf i 0

store_all-Gathers :
    (bs : List (ℕ × SniffByte)) (f : Frame)
    → FrameIsValid f
    → f.buf_len + length bs ≤ 99
    → Gathers f (store_all bs f) (length bs)
unfolding store_byte
store_all-Gathers [] f v room = record {
  kind = refl;
  valid = v;
  len = omega arith;
  kept = λ i h. refl;
}
store_all-Gathers ((now, b) ∷ bs) f v room =
    let next = store_byte-FrameIsValid b f v (omega arith) in
    let one = buf_len-store_byte b f v in
    let rest = store_all-Gathers bs (store_byte b f) next (omega arith) in
    record {
      kind = rest.kind;
      valid = rest.valid;
      len = omega (arith, rest.len);
      kept = λ i h.
          rest.kept i (omega arith) ∙ get_or-set_ne f.input_buf f.buf_len i b.input 0 (omega arith);
    }

accept_all-store_all :
    (rx : Scanners) (bs : List (ℕ × SniffByte)) (ctx : Context)
    → FrameIsValid ctx.frame
    → IsGathered ctx.frame.frame_state
    → ctx.frame.buf_len + length bs ≤ 99
    → NoEof bs
    → accept_all rx bs ctx ≡ record ctx { frame = store_all bs ctx.frame }
unfolding accept_all
accept_all-store_all rx [] ctx v k room h = refl
accept_all-store_all rx ((now, b) ∷ bs) ctx v k room h =
    ap (accept_all rx bs) (accept_gathered rx now b ctx v k (omega arith) h.0)
    ∙ accept_all-store_all rx bs (stored b ctx)
        (store_byte-FrameIsValid b ctx.frame v (omega arith)) (unfold store_byte in k)
        (omega (arith, buf_len-store_byte b ctx.frame v)) h.1

-- The frame when its end has come.
abbrev pub gathered : FrameState → SniffByte → SniffByte → List (ℕ × SniffByte) → Frame → Frame
gathered s b c bs f = store_all bs (enter s (store_byte c (store_byte b f)))

-- The whole frame of kind `s`: what is left is its reading at the end.
pub whole_frame :
    (rx : Scanners) (ctx : Context) (t0 t1 t2 : ℕ) (s : FrameState) (b c e : SniffByte)
    (bs : List (ℕ × SniffByte))
    → IsIdle ctx.frame
    → is_eof b ≡ false
    → (b.input == 0x00 && b.output == 0x77) ≡ false
    → is_eof c ≡ false
    → kind_of b.input c.input ≡ s
    → IsGathered s
    → length bs ≤ 97
    → NoEof bs
    → is_eof e ≡ true
    → Gathers (opened s b c ctx).frame (gathered s b c bs ctx.frame) (length bs)
      × (accept_all rx ((t0, b) ∷ (t1, c) ∷ (bs ++ ((t2, e) ∷ []))) ctx
          ≡ at_eof rx t2 s (record ctx { frame = store_byte e (gathered s b c bs ctx.frame) }))
unfolding enter
whole_frame rx ctx t0 t1 t2 s b c e bs v hb kb hc k g room no_eof he =
    let fits = opened-FrameIsValid s b c ctx.frame v in
    let r = store_all-Gathers bs (opened s b c ctx).frame fits.0 (omega (arith, fits.1)) in
    let all =
      accept_all-store_all rx bs (opened s b c ctx) fits.0 (g) (omega (arith, fits.1)) no_eof in
    let last =
      accept-eq-at_eof rx t2 e (record ctx { frame = gathered s b c bs ctx.frame }) r.valid he in
    (
      r,
      unfold accept_all in
          ap (accept_all rx (bs ++ ((t2, e) ∷ []))) (opening rx t0 t1 s b c ctx v hb kb hc k)
          ∙ (accept_all-append rx bs ((t2, e) ∷ []) (opened s b c ctx)
              ∙ (ap (accept rx t2 e) all
                  ∙ (last
                      ∙ ap
                          (λ q.
                            at_eof rx t2 q
                              (record ctx { frame = store_byte e (gathered s b c bs ctx.frame) }))
                          r.kind))),
    )
