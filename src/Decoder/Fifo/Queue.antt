-- ===== src/Decoder/Fifo/Queue.antt =====
-- A valid FIFO is a bounded queue: it takes a byte pair while it holds fewer than 255, drops it
-- otherwise, and gives the pairs back in order.
use lcdpico_34401a.Common.{
  ℕ, suc, ◌+◌, bit_and, sym, ◌-◌, ◌%◌, ◌<◌, ◌≡◌, ◌≢◌, ap, arith, List, [], ◌∷◌, ◌++◌, if◌then◌else◌,
  ltb, and_byte, sub32, inc32,
}
use lcdpico_34401a.Decoder.State.{SniffByte, Sniff, Context}
use lcdpico_34401a.Decoder.Edge.{fifo_append}
use lcdpico_34401a.Decoder.Process.{fifo_head, fifo_take}
use lcdpico_34401a.Decoder.Valid.{SniffIsValid}
use lcdpico_34401a.Decoder.Valid.Edges.{acc_pair}
use lcdpico_34401a.Decoder.Fifo.{level, contents, window-set_end, window_of_pos, window-mod}

-- The bounded queue that the FIFO stands for.
abbrev pub push : SniffByte → List SniffByte → ℕ → List SniffByte
push b q waiting = if ltb waiting 255 then q ++ (b ∷ []) else q

-- `fifo_append` puts the two accumulators at the end of the queue if fewer than 255 entries wait,
-- and otherwise drops them, leaves the queue and counts an overrun; the level it reports is the
-- number of entries that wait then.
pub fifo_append_refines :
    (ctx : Context)
    → SniffIsValid ctx.sniff
    → (contents (fifo_append ctx).sniff
        ≡ push (acc_pair ctx.sniff) (contents ctx.sniff) (level ctx.sniff))
      × ((fifo_append ctx).debug.byte_overrun_count ≡ (
          if ltb (level ctx.sniff) 255
          then ctx.debug.byte_overrun_count
          else inc32 ctx.debug.byte_overrun_count))
      × ((fifo_append ctx).debug.fifo_level ≡ (
          if ltb (level ctx.sniff) 255
          then level (fifo_append ctx).sniff
          else ctx.debug.fifo_level))
unfolding fifo_append
fifo_append_refines ctx v =
    let s : Sniff = ctx.sniff in
    let grown : level s < 255 → (((s.fifo_wr + 1) % 256 + 256) - s.fifo_rd) % 256 ≡ suc (level s) =
      λ h. omega arith in
    ground (
      arith,
      and_byte (s.fifo_wr + 1),
      and_byte (sub32 ((s.fifo_wr + 1) % 256) s.fifo_rd),
      window-set_end s.byte_fifo (acc_pair s) s.fifo_wr s.fifo_rd (level s),
    )

-- What the loop reads is the oldest entry, and what it leaves are the others.
pub fifo_take_refines :
    (s : Sniff)
    → SniffIsValid s
    → s.fifo_rd ≢ s.fifo_wr
    → contents s ≡ fifo_head s ∷ contents (fifo_take s)
unfolding fifo_head fifo_take
fifo_take_refines s v h =
    let next : ℕ = bit_and (s.fifo_rd + 1) 255 in
    let masked : next ≡ (s.fifo_rd + 1) % 256 = and_byte (s.fifo_rd + 1) in
    let left : (s.fifo_wr + 256 - (s.fifo_rd + 1) % 256) % 256 ≡ level s - 1 = omega arith in
    let inside : s.fifo_rd % 256 ≡ s.fifo_rd = omega arith in
    rw (window_of_pos s.byte_fifo s.fifo_rd (level s) (omega arith), masked, left, inside)
      (ap (λ t. fifo_head s ∷ t) (sym (window-mod s.byte_fifo (s.fifo_rd + 1) (level s - 1))))

-- A valid FIFO is a queue. The append puts the byte pair at its end if fewer than 255 entries wait,
-- and otherwise drops it and counts an overrun; the level that it reports is the number of entries
-- that wait. On one that is not empty the read gives the oldest entry and leaves the others in order.
pub fifo_refines :
    (ctx : Context) (s : Sniff)
    → SniffIsValid ctx.sniff
    → SniffIsValid s
    → s.fifo_rd ≢ s.fifo_wr
    → (contents (fifo_append ctx).sniff
        ≡ push (acc_pair ctx.sniff) (contents ctx.sniff) (level ctx.sniff))
      × ((fifo_append ctx).debug.byte_overrun_count ≡ (
          if ltb (level ctx.sniff) 255
          then ctx.debug.byte_overrun_count
          else inc32 ctx.debug.byte_overrun_count))
      × ((fifo_append ctx).debug.fifo_level ≡ (
          if ltb (level ctx.sniff) 255
          then level (fifo_append ctx).sniff
          else ctx.debug.fifo_level))
      × (contents s ≡ fifo_head s ∷ contents (fifo_take s))
fifo_refines ctx s v w h =
    let append = fifo_append_refines ctx v in
    (append.0, append.1, append.2, fifo_take_refines s w h)
