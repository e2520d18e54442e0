-- ===== src/Decoder/Drain.antt =====
-- One call of `decoder34401_process` empties the FIFO, and reads its bytes in order.
pub mod Side
use lcdpico_34401a.Common.{
  ℕ, zero, suc, ◌+◌, ◌-◌, ◌%◌, ◌<◌, ◌≤◌, ◌≡◌, ◌≢◌, refl, ap, sym, ◌∙◌, arith, Bool, true, false,
  not, ◌||◌, List, [], ◌∷◌, ◌==◌, if◌then◌else◌, Bool-cases, inl, inr, ==_iff, and_byte, inc32,
}
use mathlib.Core.Path.{subst}
use native.Mathlib.Decide.{ℕ_discrete}
use lcdpico_34401a.Decoder.State.{SniffByte, Sniff, Debug, Display, Message, Context}
use lcdpico_34401a.Decoder.Publish.{process_shift_window, process_reset}
use lcdpico_34401a.Decoder.Process.{
  Scanners, Clock, fifo_head, fifo_take, note_any_gap, has_work, accept, consume, loop, process,
  note_process_time,
}
use lcdpico_34401a.Decoder.Valid.{IsValid, SniffIsValid, SameParse}
use lcdpico_34401a.Decoder.Valid.Lines.{process_shift_window-IsValid}
use lcdpico_34401a.Decoder.Valid.Rounds.{consume-IsValid}
use lcdpico_34401a.Decoder.Fifo.{window, level, contents}
use lcdpico_34401a.Decoder.Fifo.Queue.{fifo_take_refines}
use lcdpico_34401a.Decoder.Frames.{accept_all}
use Side.{SameParse-trans, accept-SameParse, accept_all-SameParse, sniff-accept}

-- The waiting byte pairs, each with the reading of the timer in its round.
abbrev pub stamped : Clock → ℕ → List SniffByte → List (ℕ × SniffByte)
stamped clock zero bs = []
stamped clock (suc fuel) [] = []
stamped clock (suc fuel) (b ∷ bs) = (clock.event_us fuel, b) ∷ stamped clock fuel bs

consume-SameParse :
    (rx : Scanners) (any_us event_us : ℕ) (ctx : Context)
    → SameParse (accept rx event_us (fifo_head ctx.sniff) ctx) (consume rx any_us event_us ctx)
unfolding consume
consume-SameParse rx any_us event_us ctx =
    accept-SameParse rx event_us (fifo_head ctx.sniff) (note_any_gap any_us ctx.debug)
      (fifo_take ctx.sniff) ctx

sniff-consume :
    (rx : Scanners) (any_us event_us : ℕ) (ctx : Context)
    → (consume rx any_us event_us ctx).sniff ≡ fifo_take ctx.sniff
unfolding consume
sniff-consume rx any_us event_us ctx = sniff-accept rx event_us (fifo_head ctx.sniff) _

loop-idle :
    (rx : Scanners) (clock : Clock) (fuel : ℕ) (ctx : Context)
    → ctx.sniff.reset_received ≡ false
    → ctx.sniff.fifo_rd ≡ ctx.sniff.fifo_wr
    → loop rx clock (suc fuel) ctx ≡ ctx
unfolding loop has_work
loop-idle rx clock fuel ctx q e = ground arith

loop-round :
    (rx : Scanners) (clock : Clock) (fuel : ℕ) (ctx : Context)
    → ctx.sniff.reset_received ≡ false
    → ctx.sniff.fifo_rd ≢ ctx.sniff.fifo_wr
    → loop rx clock (suc fuel) ctx
      ≡ loop rx clock fuel (consume rx (clock.any_us fuel) (clock.event_us fuel) ctx)
unfolding loop has_work
loop-round rx clock fuel ctx q n = ground arith

level-fifo_take :
    (s : Sniff) → SniffIsValid s → s.fifo_rd ≢ s.fifo_wr → level (fifo_take s) + 1 ≡ level s
unfolding fifo_take
level-fifo_take s v n = omega (arith, and_byte (s.fifo_rd + 1))

contents-empty : (s : Sniff) → SniffIsValid s → s.fifo_rd ≡ s.fifo_wr → contents s ≡ []
contents-empty s v e = ap (window s.byte_fifo s.fifo_rd) none_left
  where
    none_left : level s ≡ 0
    none_left = omega arith

-- What a run of the loop from `ctx` comes to.
record Drains (rx : Scanners) (clock : Clock) (fuel : ℕ) (ctx ctx' : Context) : Type 0 where
  read_all : ctx'.sniff.fifo_rd ≡ ctx.sniff.fifo_wr
  kept : ctx'.sniff.fifo_wr ≡ ctx.sniff.fifo_wr
  parsed : SameParse (accept_all rx (stamped clock fuel (contents ctx.sniff)) ctx) ctx'

-- The context after a round.
abbrev round_of : Scanners → Clock → ℕ → Context → Context
round_of rx clock fuel ctx = consume rx (clock.any_us fuel) (clock.event_us fuel) ctx

Drains-round :
    (rx : Scanners) (clock : Clock) (fuel : ℕ) (ctx ctx' : Context)
    → SniffIsValid ctx.sniff
    → ctx.sniff.fifo_rd ≢ ctx.sniff.fifo_wr
    → Drains rx clock fuel (round_of rx clock fuel ctx) ctx'
    → Drains rx clock (suc fuel) ctx ctx'
Drains-round rx clock fuel ctx ctx' v n d =
    let moved = sniff-consume rx (clock.any_us fuel) (clock.event_us fuel) ctx in
    let wr_moved : (round_of rx clock fuel ctx).sniff.fifo_wr ≡ ctx.sniff.fifo_wr =
      ap (λ (s : Sniff). s.fifo_wr) moved ∙ (unfold fifo_take in refl) in
    let now = clock.event_us fuel in
    let waiting = stamped clock fuel (contents (fifo_take ctx.sniff)) in
    let first = consume-SameParse rx (clock.any_us fuel) now ctx in
    let others : SameParse (accept_all rx waiting (round_of rx clock fuel ctx)) ctx' =
      subst
        (λ s.
          SameParse (accept_all rx (stamped clock fuel (contents s)) (round_of rx clock fuel ctx))
            ctx')
        moved d.parsed in
    record {
      read_all = d.read_all ∙ wr_moved;
      kept = d.kept ∙ wr_moved;
      parsed =
          subst (λ bs. SameParse (accept_all rx (stamped clock (suc fuel) bs) ctx) ctx')
            (sym (fifo_take_refines ctx.sniff v n))
            (unfold accept_all in
              SameParse-trans (accept_all rx waiting (accept rx now (fifo_head ctx.sniff) ctx))
                (accept_all rx waiting (round_of rx clock fuel ctx)) ctx'
                (accept_all-SameParse rx waiting (accept rx now (fifo_head ctx.sniff) ctx)
                  (round_of rx clock fuel ctx) first)
                others);
    }

-- The loop's rounds end with the FIFO empty, if there are more of them than entries.
loop-Drains :
    (rx : Scanners) (clock : Clock) (fuel : ℕ) (ctx : Context)
    → IsValid ctx
    → ctx.sniff.reset_received ≡ false
    → level ctx.sniff < fuel
    → Drains rx clock fuel ctx (loop rx clock fuel ctx)
loop-Drains rx clock zero ctx v q h = absurd (omega arith)
loop-Drains rx clock (suc fuel) ctx v q h = elim (ℕ_discrete ctx.sniff.fifo_rd ctx.sniff.fifo_wr) [
  | yes e ↦ rw (loop-idle rx clock fuel ctx q e) (record {
    read_all = e;
    kept = refl;
    parsed =
        rw (contents-empty ctx.sniff v.sniff e) (unfold accept_all in (refl, refl, refl, refl));
  })
  | no n ↦
      let moved = sniff-consume rx (clock.any_us fuel) (clock.event_us fuel) ctx in
      rw (loop-round rx clock fuel ctx q n) (
        Drains-round rx clock fuel ctx (loop rx clock fuel (round_of rx clock fuel ctx)) v.sniff n (
          loop-Drains rx clock fuel (round_of rx clock fuel ctx)
            (consume-IsValid rx (clock.any_us fuel) (clock.event_us fuel) ctx v)
            (ap (λ (s : Sniff). s.reset_received) moved ∙ (unfold fifo_take in q))
            (rw moved (omega (arith, level-fifo_take ctx.sniff v.sniff n)))))
]

-- The context in which the loop of one call starts.
abbrev pub checked : Clock → Context → Context
checked clock ctx = process_shift_window clock.window_us ctx

sniff-checked : (clock : Clock) (ctx : Context) → (checked clock ctx).sniff ≡ ctx.sniff
unfolding process_shift_window
sniff-checked clock ctx = ground arith

noted-same :
    (clock : Clock) (ctx : Context)
    → ((note_process_time clock ctx).sniff ≡ ctx.sniff)
      × SameParse ctx (note_process_time clock ctx)
unfolding note_process_time
noted-same clock ctx = ground arith

loop-reset :
    (rx : Scanners) (clock : Clock) (fuel : ℕ) (ctx : Context)
    → ctx.sniff.reset_received ≡ true
    → loop rx clock (suc fuel) ctx ≡ process_reset ctx
unfolding loop has_work
loop-reset rx clock fuel ctx q = ground arith

-- One call on a valid context with no reset pending, and no interrupt during it, ends with the
-- FIFO empty; the display, the frame, the shift window and the message are then as if, after the
-- check of the shift window, the waiting byte pairs had gone through the automaton in order.
pub process_drains :
    (rx : Scanners) (clock : Clock) (ctx : Context)
    → IsValid ctx
    → ctx.sniff.reset_received ≡ false
    → ((process rx clock ctx).sniff.fifo_rd ≡ ctx.sniff.fifo_wr)
      × ((process rx clock ctx).sniff.fifo_wr ≡ ctx.sniff.fifo_wr)
      × SameParse
          (accept_all rx (stamped clock 256 (contents ctx.sniff)) (checked clock ctx))
          (process rx clock ctx)
process_drains rx clock ctx v q =
    let same = sniff-checked clock ctx in
    let d =
      loop-Drains rx clock 256 (checked clock ctx)
        (process_shift_window-IsValid clock.window_us ctx v) (rw same q) (rw same (omega arith)) in
    let parsed =
      subst
        (λ s.
          SameParse (accept_all rx (stamped clock 256 (contents s)) (checked clock ctx))
            (loop rx clock 256 (checked clock ctx)))
        same d.parsed in
    let wr_same = ap (λ (s : Sniff). s.fifo_wr) same in
    let noted = noted-same clock (loop rx clock 256 (checked clock ctx)) in
    unfold process in
    (
      ap (λ (s : Sniff). s.fifo_rd) noted.0 ∙ (d.read_all ∙ wr_same),
      ap (λ (s : Sniff). s.fifo_wr) noted.0 ∙ (d.kept ∙ wr_same),
      SameParse-trans (accept_all rx (stamped clock 256 (contents ctx.sniff)) (checked clock ctx))
          (loop rx clock 256 (checked clock ctx))
          (note_process_time clock (loop rx clock 256 (checked clock ctx))) parsed noted.1,
    )

-- What a reset leaves, read off the context before and the one behind the call.
abbrev pub StartsOver : Context → Context → Type 0
StartsOver ctx ctx' =
    let d : Display = ctx.display in
    let d' : Display = ctx'.display in
    let m' : Message = ctx'.message in
    (d'.main
      ≡ b'S' ∷ b'Y' ∷ b'S' ∷ b'T' ∷ b'E' ∷ b'M' ∷ b' ' ∷ b'R' ∷ b'E' ∷ b'S' ∷ b'E' ∷ b'T' ∷ b' '
        ∷ b' ' ∷ 0 ∷ 0 ∷ [])
    × (d'.ann_state ≡ 0)
    × (d'.blink_mask ≡ 0)
    × (d'.new_data_counter ≡ inc32 d.new_data_counter)
    × (d'.main_counter ≡ inc32 d.main_counter)
    × (d'.ann_counter ≡ inc32 d.ann_counter)
    × (d'.last_reading ≡ d.last_reading)
    × (ctx'.shift.shift_window_active ≡ false)
    × (ctx'.shift.shift_press_count ≡ 0)
    × (m'.msg_work_need_reset ≡ true)
    × (m'.corrupt_msg ≡ false)
    × (m'.menu_msg ≡ false)
    × (m'.valid_reading ≡ false)
    × (ctx'.frame ≡ ctx.frame)

process_reset-StartsOver :
    (ctx ctx' : Context) → SameParse (process_reset ctx) ctx' → StartsOver ctx ctx'
unfolding process_reset
process_reset-StartsOver ctx ctx' same =
    rw (same.0, same.1, same.2, same.3)
      (refl, refl, refl, refl, refl, refl, refl, refl, refl, refl, refl, refl, refl, refl)

-- With a reset pending, one call reads no byte: the FIFO stays, and the reset is taken back. The
-- line says so and is filled up with zeros, no annunciator is on, nothing blinks, the counters of
-- the line, the annunciators and new data have gone up by one in 32 bits from where the check of
-- the shift window left them, the window is closed with the count at zero, the next byte of a
-- message begins a new line, no message is marked as corrupt, a menu or a reading, and the frame
-- and the last reading stay.
pub process_reset_first :
    (rx : Scanners) (clock : Clock) (ctx : Context)
    → ctx.sniff.reset_received ≡ true
    → ((process rx clock ctx).sniff ≡ record (ctx.sniff) { reset_received = false })
      × StartsOver (process_shift_window clock.window_us ctx) (process rx clock ctx)
unfolding process
process_reset_first rx clock ctx q =
    let same = sniff-checked clock ctx in
    let pending : (checked clock ctx).sniff.reset_received ≡ true =
      ap (λ (s : Sniff). s.reset_received) same ∙ q in
    let looped = loop-reset rx clock 255 (checked clock ctx) pending in
    let noted = noted-same clock (loop rx clock 256 (checked clock ctx)) in
    let taken : (process_reset (checked clock ctx)).sniff
        ≡ record (ctx.sniff) { reset_received = false } =
      unfold process_reset in ap (λ (s : Sniff). record s { reset_received = false }) same in
    (
      noted.0 ∙ (ap (λ (c : Context). c.sniff) looped ∙ taken),
      process_reset-StartsOver (checked clock ctx)
          (note_process_time clock (loop rx clock 256 (checked clock ctx)))
          (subst
            (λ c. SameParse c (note_process_time clock (loop rx clock 256 (checked clock ctx))))
            looped noted.1),
    )
