-- ===== src/Decoder/Text/Whole.antt =====
-- A whole message frame, from its two opening pairs to its end.
pub mod Counter
use lcdpico_34401a.Common.{
  ℕ, ◌+◌, ◌<◌, ◌≤◌, ◌≡◌, refl, ap, ◌∙◌, arith, true, false, not, ◌&&◌, ◌||◌, List, [], ◌∷◌, ◌++◌,
  length, ◌==◌, if◌then◌else◌,
}
use lcdpico_34401a.Decoder.State.{
  SniffByte, frame_unknown, frame_message, Display, Frame, Message, Context,
}
use lcdpico_34401a.Decoder.Message.{message_byte, update_bar}
use lcdpico_34401a.Decoder.Process.{
  Scanners, store_byte, enter, in_frame, at_eof, judge, publish_line, finish_message, end_frame,
  accept,
}
use lcdpico_34401a.Decoder.Valid.{FrameIsValid}
use lcdpico_34401a.Decoder.Frames.{
  is_eof, stored, accept-eq-in_frame, accept-eq-at_eof, accept_all, accept_all-append, NoEof,
  buf_len-store_byte, store_byte-FrameIsValid, last_input-store_byte,
}
use lcdpico_34401a.Decoder.Frames.Kinds.{IsIdle, kind_of, opened, opening, opened-FrameIsValid}
use lcdpico_34401a.Decoder.Text.{line_of, is_corrupt, message_bytes}
use lcdpico_34401a.Decoder.Text.Spelled.{message_bytes-line}

abbrev pub inputs_of : List (ℕ × SniffByte) → List ℕ
inputs_of [] = []
inputs_of ((now, b) ∷ bs) = b.input ∷ inputs_of bs

-- The context while a message is read: only the frame and the message have moved.
pub record Reads (ctx ctx' : Context) (codes : List ℕ) : Type 0 where
  pub display : ctx'.display ≡ ctx.display
  pub message : ctx'.message ≡ message_bytes codes ctx.message
  pub kind : ctx'.frame.frame_state ≡ frame_message
  pub valid : FrameIsValid ctx'.frame

accept_message :
    (rx : Scanners) (now : ℕ) (b : SniffByte) (ctx : Context)
    → FrameIsValid ctx.frame
    → ctx.frame.frame_state ≡ frame_message
    → ctx.frame.buf_len < 99
    → is_eof b ≡ false
    → accept rx now b ctx ≡ record (stored b ctx) { message = message_byte ctx.message b.input }
unfolding in_frame
accept_message rx now b ctx v k room h =
    accept-eq-in_frame rx now b ctx v h room
    ∙ (ap (λ s. in_frame now s (stored b ctx)) k
        ∙ ap (λ c. record (stored b ctx) { message = message_byte ctx.message c })
            (last_input-store_byte b ctx.frame v))

pub body :
    (rx : Scanners) (bs : List (ℕ × SniffByte)) (ctx : Context)
    → FrameIsValid ctx.frame
    → ctx.frame.frame_state ≡ frame_message
    → ctx.frame.buf_len + length bs ≤ 99
    → NoEof bs
    → Reads ctx (accept_all rx bs ctx) (inputs_of bs)
unfolding accept_all message_bytes
body rx [] ctx v k room h = record { display = refl; message = refl; kind = k; valid = v }
body rx ((now, b) ∷ bs) ctx v k room h =
    let step = accept_message rx now b ctx v k (omega arith) h.0 in
    let next : Context = record (stored b ctx) { message = message_byte ctx.message b.input } in
    let rest =
      body rx bs next (store_byte-FrameIsValid b ctx.frame v (omega arith)) (unfold store_byte in k)
        (omega (arith, buf_len-store_byte b ctx.frame v)) h.1 in
    rw step (record {
      display = rest.display;
      message = rest.message;
      kind = rest.kind;
      valid = rest.valid;
    })

main-update_bar :
    (f : Frame) (d : Display)
    → ((update_bar f d).main ≡ d.main) × ((update_bar f d).last_reading ≡ d.last_reading)
unfolding update_bar
main-update_bar f d = ground arith

-- What the end of a message shows.
finish_message-shows :
    (rx : Scanners) (now : ℕ) (ctx : Context)
    → ((finish_message rx now ctx).display.main ≡ ctx.message.msg_work)
      × ((finish_message rx now ctx).display.last_reading ≡ (
          if ctx.message.valid_reading
            || (not ctx.message.corrupt_msg && rx.valid_reading ctx.message.msg_work)
          then ctx.message.msg_work
          else ctx.display.last_reading))
      × ((finish_message rx now ctx).message.msg_work_need_reset ≡ true)
      × ((finish_message rx now ctx).frame ≡ end_frame ctx.frame)
unfolding finish_message publish_line judge
finish_message-shows rx now ctx =
    ground (arith, main-update_bar ctx.frame (publish_line (judge rx ctx.message) ctx.display))

end_pair :
    (rx : Scanners) (now : ℕ) (b : SniffByte) (ctx : Context)
    → FrameIsValid ctx.frame
    → ctx.frame.frame_state ≡ frame_message
    → is_eof b ≡ true
    → accept rx now b ctx ≡ finish_message rx now (stored b ctx)
unfolding at_eof
end_pair rx now b ctx v k h =
    accept-eq-at_eof rx now b ctx v h ∙ ap (λ s. at_eof rx now s (stored b ctx)) k

-- The whole frame is its opening, its body and its end.
pub in_parts :
    (rx : Scanners) (ctx : Context) (t0 t1 t2 : ℕ) (b c e : SniffByte) (bs : List (ℕ × SniffByte))
    → accept rx t1 c (accept rx t0 b ctx) ≡ opened frame_message b c ctx
    → FrameIsValid (accept_all rx bs (opened frame_message b c ctx)).frame
    → (accept_all rx bs (opened frame_message b c ctx)).frame.frame_state ≡ frame_message
    → is_eof e ≡ true
    → accept_all rx ((t0, b) ∷ (t1, c) ∷ (bs ++ ((t2, e) ∷ []))) ctx
      ≡ finish_message rx t2 (stored e (accept_all rx bs (opened frame_message b c ctx)))
in_parts rx ctx t0 t1 t2 b c e bs opens v k he =
    unfold accept_all in
    ap (accept_all rx (bs ++ ((t2, e) ∷ []))) opens
    ∙ (accept_all-append rx bs ((t2, e) ∷ []) (opened frame_message b c ctx)
        ∙ (unfold accept_all in
            end_pair rx t2 e (accept_all rx bs (opened frame_message b c ctx)) v k he))

-- A whole message frame, read from an idle frame with the line to be reset: an opening pair that
-- is neither an end of frame nor a button's, a second pair that makes it a message, one to 97
-- further pairs that do not end the frame, and an end-of-frame pair. Then the display's line is
-- the one that the further bytes spell; the last reading is that line if it is not corrupt and
-- scans as a reading, and else what it was; and the decoder is idle and ready for the next line.
pub message_frame :
    (rx : Scanners) (ctx : Context) (t0 t1 t2 : ℕ) (b c e : SniffByte) (x : ℕ × SniffByte)
    (xs : List (ℕ × SniffByte))
    → IsIdle ctx.frame
    → ctx.message.msg_work_need_reset ≡ true
    → is_eof b ≡ false
    → (b.input == 0x00 && b.output == 0x77) ≡ false
    → is_eof c ≡ false
    → kind_of b.input c.input ≡ frame_message
    → length xs ≤ 96
    → NoEof (x ∷ xs)
    → is_eof e ≡ true
    → let codes : List ℕ = inputs_of (x ∷ xs) in
      let ctx' : Context = accept_all rx ((t0, b) ∷ (t1, c) ∷ ((x ∷ xs) ++ ((t2, e) ∷ []))) ctx in
      (ctx'.display.main ≡ line_of codes)
      × (ctx'.display.last_reading ≡ (
          if not (is_corrupt codes) && rx.valid_reading (line_of codes)
          then line_of codes
          else ctx.display.last_reading))
      × (ctx'.message.msg_work_need_reset ≡ true)
      × (ctx'.frame.frame_state ≡ frame_unknown)
      × (ctx'.frame.buf_len ≡ 0)
unfolding end_frame
message_frame rx ctx t0 t1 t2 b c e x xs v n hb kb hc k room no_eof he =
    let fits = opened-FrameIsValid frame_message b c ctx.frame v in
    let r =
      body rx (x ∷ xs) (opened frame_message b c ctx) fits.0 (unfold enter in refl)
        (omega (arith, fits.1)) no_eof in
    let read : Context = accept_all rx (x ∷ xs) (opened frame_message b c ctx) in
    let parts =
      in_parts rx ctx t0 t1 t2 b c e (x ∷ xs) (opening rx t0 t1 frame_message b c ctx v hb kb hc k)
        r.valid r.kind he in
    let shows = finish_message-shows rx t2 (stored e read) in
    let line = message_bytes-line x.1.input (inputs_of xs) ctx.message n in
    rw parts (ground (arith, shows, line, r.message, r.display))

finish_message-known :
    (rx : Scanners) (now : ℕ) (ctx : Context)
    → ctx.message.corrupt_msg ≡ false
    → rx.valid_reading ctx.message.msg_work ≡ true
    → ((finish_message rx now ctx).message.corrupt_msg ≡ false)
      × ((finish_message rx now ctx).message.valid_reading ≡ true)
unfolding finish_message judge
finish_message-known rx now ctx clean scanned = rw (clean, scanned) (refl, refl)

-- What such a frame leaves in the message, if its line is clean and scans as a reading.
pub message_frame-message :
    (rx : Scanners) (ctx : Context) (t0 t1 t2 : ℕ) (b c e : SniffByte) (x : ℕ × SniffByte)
    (xs : List (ℕ × SniffByte))
    → IsIdle ctx.frame
    → ctx.message.msg_work_need_reset ≡ true
    → is_eof b ≡ false
    → (b.input == 0x00 && b.output == 0x77) ≡ false
    → is_eof c ≡ false
    → kind_of b.input c.input ≡ frame_message
    → length xs ≤ 96
    → NoEof (x ∷ xs)
    → is_eof e ≡ true
    → is_corrupt (inputs_of (x ∷ xs)) ≡ false
    → rx.valid_reading (line_of (inputs_of (x ∷ xs))) ≡ true
    → let ctx' : Context = accept_all rx ((t0, b) ∷ (t1, c) ∷ ((x ∷ xs) ++ ((t2, e) ∷ []))) ctx in
      (ctx'.message.corrupt_msg ≡ false) × (ctx'.message.valid_reading ≡ true)
message_frame-message rx ctx t0 t1 t2 b c e x xs v n hb kb hc k room no_eof he clean scanned =
    let fits = opened-FrameIsValid frame_message b c ctx.frame v in
    let r =
      body rx (x ∷ xs) (opened frame_message b c ctx) fits.0 (unfold enter in refl)
        (omega (arith, fits.1)) no_eof in
    let read : Context = accept_all rx (x ∷ xs) (opened frame_message b c ctx) in
    let parts =
      in_parts rx ctx t0 t1 t2 b c e (x ∷ xs) (opening rx t0 t1 frame_message b c ctx v hb kb hc k)
        r.valid r.kind he in
    let line = message_bytes-line x.1.input (inputs_of xs) ctx.message n in
    let plain : (stored e read).message.corrupt_msg ≡ false =
      ap (λ (m : Message). m.corrupt_msg) r.message ∙ (line.1 ∙ clean) in
    let spelled : rx.valid_reading (stored e read).message.msg_work ≡ true =
      ap (λ (m : Message). rx.valid_reading m.msg_work) r.message
      ∙ (ap rx.valid_reading line.0 ∙ scanned) in
    rw parts (finish_message-known rx t2 (stored e read) plain spelled)
