-- ===== src/Decoder/Edge.antt =====
-- The interrupt handlers of src/decoder_34401a.c, which fill the byte FIFO.
use lcdpico_34401a.Common.{
  ℕ, ◌+◌, ◌*◌, ◌/◌, Bool, true, not, ◌&&◌, ◌||◌, List, [], ◌∷◌, set, ltb, leb, ◌==◌, if◌then◌else◌,
  bit_and, bit_or, u8, sub32, inc8, inc32,
}
use lcdpico_34401a.Decoder.State.{byte_fifo_mask, max_sck_delay_us, Debug, Sniff, Context}

abbrev pub sample_count : ℕ
sample_count = 15

-- `fifo_append`. A full FIFO drops the byte and counts it.
unfoldable pub fifo_append : Context → Context
fifo_append ctx =
    let s : Sniff = ctx.sniff in
    let d : Debug = ctx.debug in
    let next_wr : ℕ = bit_and (s.fifo_wr + 1) byte_fifo_mask in
    let level : ℕ = bit_and (sub32 next_wr s.fifo_rd) byte_fifo_mask in
    if next_wr == s.fifo_rd
    then record ctx {
      debug = record d { byte_overrun_count = inc32 d.byte_overrun_count };
      sniff = record s { byte_len = 0 };
    }
    else record ctx {
      debug = record d {
        fifo_level = level;
        fifo_level_max = if ltb d.fifo_level_max level then level else d.fifo_level_max;
      };
      sniff = record s {
        byte_len = 0;
        byte_fifo =
            set s.byte_fifo s.fifo_wr (record { input = s.input_acc; output = s.output_acc });
        fifo_wr = next_wr;
      };
    }

-- What one interrupt reads: the timer on entry and on exit, and the two pins, sampled
-- `sample_count` times.
pub record Edge : Type 0 where
  pub now_us : ℕ
  pub end_us : ℕ
  pub do_samples : List Bool
  pub di_samples : List Bool

-- `do_c` and `di_c`. Fifteen samples do not overflow a uint8_t.
unfoldable pub count_high : List Bool → ℕ
count_high [] = 0
count_high (b ∷ bs) = (if b then 1 else 0) + count_high bs

unfoldable pub majority : List Bool → Bool
majority samples = ltb (sample_count / 2) (count_high samples)

unfoldable pub is_noisy : List Bool → Bool
is_noisy samples = not (count_high samples == 0 || count_high samples == sample_count)

unfoldable pub note_noise : Edge → Context → Context
unfolding is_noisy
note_noise e ctx =
    let d : Debug = ctx.debug in
    record ctx {
      debug = record d {
        do_noise_count = if is_noisy e.do_samples then inc32 d.do_noise_count else d.do_noise_count;
        di_noise_count = if is_noisy e.di_samples then inc32 d.di_noise_count else d.di_noise_count;
      };
    }

-- What was read of a byte is noted, and an end-of-frame pair takes its place.
unfoldable pub note_gap : Context → Context
note_gap ctx =
    let s : Sniff = ctx.sniff in
    let d : Debug = ctx.debug in
    record ctx {
      debug = record d {
        mid_byte_gap_input = s.input_acc;
        mid_byte_gap_output = s.output_acc;
        mid_byte_gap_bits = s.byte_len;
      };
      sniff = record s { input_acc = 0x00; output_acc = 0xbb };
    }

unfoldable pub count_gap : ℕ → ℕ → Context → Context
count_gap now gap ctx =
    let d : Debug = ctx.debug in
    record ctx {
      debug = record d {
        mid_byte_gap_count = inc32 d.mid_byte_gap_count;
        mid_byte_gap_last_time = now;
        mid_byte_gap_last_us = gap;
        mid_byte_gap_max_us = if ltb d.mid_byte_gap_max_us gap then gap else d.mid_byte_gap_max_us;
      };
    }

unfoldable pub time_gap : ℕ → Context → Context
time_gap gap ctx =
    let d : Debug = ctx.debug in
    record ctx {
      debug = record d {
        sck_gap_us = gap;
        sck_gap_us_max = if ltb d.sck_gap_us_max gap then gap else d.sck_gap_us_max;
      };
    }

-- The detection of a gap inside a byte.
unfoldable pub check_gap : ℕ → Context → Context
check_gap now ctx =
    let gap : ℕ = sub32 now ctx.sniff.last_us in
    let timed : Context = time_gap gap ctx in
    if not (ltb 0 ctx.sniff.last_us)
    then ctx
    else if not (ctx.sniff.byte_len == 0) && ltb max_sck_delay_us gap
    then count_gap now gap (fifo_append (note_gap timed))
    else timed

-- One bit from each pin, most significant first.
unfoldable pub shift_in : Bool → Bool → Sniff → Sniff
shift_in do_pin di_pin s = record s {
  output_acc = u8 (bit_or (s.output_acc * 2) (if do_pin then 1 else 0));
  input_acc = u8 (bit_or (s.input_acc * 2) (if di_pin then 1 else 0));
  byte_len = inc8 s.byte_len;
}

unfoldable pub complete_byte : Context → Context
complete_byte ctx = if leb 8 ctx.sniff.byte_len then fifo_append ctx else ctx

unfoldable pub read_bit : Edge → Context → Context
unfolding majority shift_in
read_bit e ctx =
    let s : Sniff = ctx.sniff in
    record ctx {
      sniff =
          shift_in (majority e.do_samples) (majority e.di_samples)
            (record s { last_us = e.now_us });
    }

unfoldable pub count_edge : Edge → Context → Context
count_edge e ctx =
    let d : Debug = ctx.debug in
    record ctx {
      debug = record d { sck_count = inc32 d.sck_count; int_len_us = sub32 e.end_us e.now_us };
    }

-- `decoder34401_sckedge`. The first of its two writes of `dbg_int_len_us` is overwritten by the
-- second.
unfoldable pub sckedge : Edge → Context → Context
sckedge e ctx = count_edge e (complete_byte (read_bit e (check_gap e.now_us (note_noise e ctx))))

-- `decoder34401_reset`
unfoldable pub reset : ℕ → Context → Context
reset now ctx =
    let s : Sniff = ctx.sniff in
    let d : Debug = ctx.debug in
    record ctx {
      debug = record d { reset_last_time = now; reset_count = inc32 d.reset_count };
      sniff = record s { byte_len = 0; reset_received = true };
    }

-- `decoder34401_int`
unfoldable pub int : ℕ → Context → Context
int now ctx =
    let d : Debug = ctx.debug in
    record ctx { debug = record d { int_last_time = now; int_count = inc32 d.int_count } }
