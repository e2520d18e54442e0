-- ===== src/Decoder/Valid/Edges.antt =====
-- The interrupt handlers keep the invariant.
use lcdpico_34401a.Common.{ℕ, ◌+◌, ◌<◌, ◌≤◌, ◌≡◌, refl, arith, length-set, and_byte, sub32}
use lcdpico_34401a.Decoder.State.{Sniff, Context, SniffByte}
use lcdpico_34401a.Decoder.Edge.{
  Edge, fifo_append, note_noise, note_gap, count_gap, time_gap, check_gap, read_bit, count_edge,
  complete_byte, sckedge, reset, int,
}
use lcdpico_34401a.Decoder.Valid.{IsValid, SniffIsValid, SameParse}

abbrev pub acc_pair : Sniff → SniffByte
acc_pair s = record { input = s.input_acc; output = s.output_acc }

fifo_append-SniffIsValid :
    (ctx : Context) → SniffIsValid ctx.sniff → SniffIsValid (fifo_append ctx).sniff
unfolding fifo_append
fifo_append-SniffIsValid ctx v = ground (
  arith,
  and_byte (ctx.sniff.fifo_wr + 1),
  length-set ctx.sniff.byte_fifo ctx.sniff.fifo_wr (acc_pair ctx.sniff),
)

byte_len-fifo_append : (ctx : Context) → (fifo_append ctx).sniff.byte_len ≡ 0
unfolding fifo_append
byte_len-fifo_append ctx = ground arith

fifo_append-SameParse : (ctx : Context) → SameParse ctx (fifo_append ctx)
unfolding fifo_append
fifo_append-SameParse ctx = ground arith

note_gap-SniffIsValid : (ctx : Context) → SniffIsValid ctx.sniff → SniffIsValid (note_gap ctx).sniff
unfolding note_gap
note_gap-SniffIsValid ctx v = omega arith

check_gap-SniffIsValid :
    (now : ℕ) (ctx : Context)
    → SniffIsValid ctx.sniff
    → ctx.sniff.byte_len < 8
    → SniffIsValid (check_gap now ctx).sniff × ((check_gap now ctx).sniff.byte_len < 8)
unfolding check_gap count_gap time_gap
check_gap-SniffIsValid now ctx v b =
    let timed = time_gap (sub32 now ctx.sniff.last_us) ctx in
    ground (
      arith,
      byte_len-fifo_append (note_gap timed),
      fifo_append-SniffIsValid (note_gap timed) (note_gap-SniffIsValid timed v),
    )

check_gap-SameParse : (now : ℕ) (ctx : Context) → SameParse ctx (check_gap now ctx)
unfolding check_gap count_gap time_gap note_gap fifo_append
check_gap-SameParse now ctx = ground arith

read_bit-SniffIsValid :
    (e : Edge) (ctx : Context)
    → SniffIsValid ctx.sniff
    → ctx.sniff.byte_len < 8
    → SniffIsValid (read_bit e ctx).sniff × ((read_bit e ctx).sniff.byte_len ≤ 8)
unfolding read_bit
read_bit-SniffIsValid e ctx v b = (omega arith, omega arith)

complete_byte-SniffIsValid :
    (ctx : Context)
    → SniffIsValid ctx.sniff
    → ctx.sniff.byte_len ≤ 8
    → SniffIsValid (complete_byte ctx).sniff × ((complete_byte ctx).sniff.byte_len < 8)
unfolding complete_byte
complete_byte-SniffIsValid ctx v b =
    ground (arith, fifo_append-SniffIsValid ctx v, byte_len-fifo_append ctx)

pub sckedge-SameParse : (e : Edge) (ctx : Context) → SameParse ctx (sckedge e ctx)
unfolding sckedge note_noise read_bit complete_byte count_edge
sckedge-SameParse e ctx =
    let gapped = check_gap e.now_us (note_noise e ctx) in
    ground (
      arith,
      check_gap-SameParse e.now_us (note_noise e ctx),
      fifo_append-SameParse (read_bit e gapped),
    )

pub sckedge-SniffIsValid :
    (e : Edge) (ctx : Context)
    → SniffIsValid ctx.sniff
    → ctx.sniff.byte_len < 8
    → SniffIsValid (sckedge e ctx).sniff × ((sckedge e ctx).sniff.byte_len < 8)
unfolding sckedge note_noise count_edge
sckedge-SniffIsValid e ctx v b =
    let gapped = check_gap-SniffIsValid e.now_us (note_noise e ctx) v b in
    let read = read_bit-SniffIsValid e (check_gap e.now_us (note_noise e ctx)) gapped.0 gapped.1 in
    complete_byte-SniffIsValid (read_bit e (check_gap e.now_us (note_noise e ctx))) read.0 read.1

-- A handler that leaves the decoder's part of the context alone keeps its part of the invariant.
IsValid-of_same :
    {ctx ctx' : Context}
    → IsValid ctx
    → SameParse ctx ctx'
    → SniffIsValid ctx'.sniff
    → ctx'.sniff.byte_len < 8
    → IsValid ctx'
IsValid-of_same {ctx} {ctx'} v same s b = record {
  display = rw same.0 v.display;
  sniff = s;
  bits = b;
  frame = rw same.1 v.frame;
  message = rw same.3 v.message;
  presses = rw same.2 v.presses;
}

-- A clock edge keeps the invariant.
pub sckedge-IsValid : (e : Edge) (ctx : Context) → IsValid ctx → IsValid (sckedge e ctx)
sckedge-IsValid e ctx v =
    let sniffed = sckedge-SniffIsValid e ctx v.sniff v.bits in
    IsValid-of_same v (sckedge-SameParse e ctx) sniffed.0 sniffed.1

-- So do the reset line and the interrupt line.
pub reset-IsValid : (now : ℕ) (ctx : Context) → IsValid ctx → IsValid (reset now ctx)
unfolding reset
reset-IsValid now ctx v = IsValid-of_same v (refl, refl, refl, refl) (omega arith) (omega arith)

pub int-IsValid : (now : ℕ) (ctx : Context) → IsValid ctx → IsValid (int now ctx)
unfolding int
int-IsValid now ctx v = IsValid-of_same v (refl, refl, refl, refl) v.sniff v.bits
