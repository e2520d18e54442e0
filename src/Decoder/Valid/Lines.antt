-- ===== src/Decoder/Valid/Lines.antt =====
-- The assembly of a line and what a frame publishes keep the invariant.
use lcdpico_34401a.Common.{
  ℕ, zero, suc, Option, none, some, ltb→lt, ◌+◌, ◌-◌, ◌*◌, ◌^◌, ◌<◌, ◌≤◌, ◌≡◌, refl, arith, true,
  List, get_or, length-set, get_or-set_ne, if◌then◌else◌, Bool-cases, inl, inr, ltb, bit_or,
  bit_and, bit_or-lt, bit_and-le, bit_xor-lt, u16,
}
use native.Mathlib.Nat.{le_trans, pow-suc, pow-le-pow_right}
use native.Mathlib.Numerals.{towards_suc}
use lcdpico_34401a.Common.Int.{abs, neg_of}
use lcdpico_34401a.Decoder.State.{Display, Frame, Message, Context}
use lcdpico_34401a.Decoder.Message.{
  isprint, isdigit, putc_safe, start_line, mark_blink, put_byte, message_byte, bar_digits,
  bar_value_of, update_bar,
}
use lcdpico_34401a.Decoder.Publish.{
  process_shift_window, publish_annunciators, control_position, set_blink, decode_control,
  process_reset,
}
use lcdpico_34401a.Decoder.Valid.{IsValid, MessageIsValid, DisplayIsValid}

putc_safe-MessageIsValid : (m : Message) (c : ℕ) → MessageIsValid m → MessageIsValid (putc_safe m c)
unfolding putc_safe
putc_safe-MessageIsValid m c v =
    let shown : ℕ = if isprint c then c else 32 in
    ground
      (arith, length-set m.msg_work m.msg_idx shown, get_or-set_ne m.msg_work m.msg_idx 15 shown 1)

start_line-MessageIsValid : (m : Message) → MessageIsValid m → MessageIsValid (start_line m)
unfolding start_line
start_line-MessageIsValid m v = ground arith

mark_blink-MessageIsValid : (m : Message) → MessageIsValid m → MessageIsValid (mark_blink m)
unfolding mark_blink
mark_blink-MessageIsValid m v =
    ground (arith, bit_or-lt 16 m.msg_blink_work (u16 (2 ^ (m.msg_idx - 1))) v.blink)

put_byte-MessageIsValid : (m : Message) (b : ℕ) → MessageIsValid m → MessageIsValid (put_byte m b)
unfolding put_byte
put_byte-MessageIsValid m b v = ground (
  arith,
  putc_safe-MessageIsValid m 46 v,
  putc_safe-MessageIsValid m 44 v,
  putc_safe-MessageIsValid m 58 v,
  putc_safe-MessageIsValid (mark_blink m) 58 (mark_blink-MessageIsValid m v),
  putc_safe-MessageIsValid m b v,
)

pub message_byte-MessageIsValid :
    (m : Message) (b : ℕ) → MessageIsValid m → MessageIsValid (message_byte m b)
unfolding message_byte
message_byte-MessageIsValid m b v =
    put_byte-MessageIsValid (start_line m) b (start_line-MessageIsValid m v)

grow : {c limit value : ℕ} → c ≤ limit → value < 10 ^ c → value < 10 ^ limit
grow h k = le_trans k (pow-le-pow_right {n = 10} (omega arith) h)

one_more :
    (c : ℕ) {value digit : ℕ} → digit ≤ 9 → value < 10 ^ c → 10 * value + digit < 10 ^ (c + 1)
one_more c p k = simp towards_suc (omega (arith, pow-suc 10 c))

digit_of : (ch : ℕ) → isdigit ch ≡ true → ch - 48 ≤ 9
unfolding isdigit
digit_of ch h = ground arith

abs-neg_of : (n : ℕ) → abs (neg_of n) ≡ n
abs-neg_of zero = refl
abs-neg_of (suc n) = refl

-- With `c` of `limit` digits taken, a value below 10 ^ c stays below 10 ^ limit.
bar_digits-lt :
    (limit left : ℕ) (buf : List ℕ) (st c value : ℕ)
    → c ≤ limit
    → value < 10 ^ c
    → bar_digits limit left buf st c value < 10 ^ limit
unfolding bar_digits
bar_digits-lt limit zero buf st c value h k = grow h k
bar_digits-lt limit (suc left) buf st c value h k = elim (Bool-cases (ltb c limit)) [
  | inl more ↦ rw more (elim (Bool-cases (isdigit (get_or buf st 0))) [
    | inl digit ↦ rw digit (
        bar_digits-lt limit left buf (st + 1) (c + 1) (10 * value + (get_or buf st 0 - 48))
          (omega (arith, ltb→lt c limit more)) (one_more c (digit_of (get_or buf st 0) digit) k))
    | inr other ↦ rw other (bar_digits-lt limit left buf (st + 1) c value h k)
  ])
  | inr full ↦ rw full (grow h k)
]

bar_value_of-abs : (buf : List ℕ) → abs (bar_value_of buf) ≤ 9999
unfolding bar_value_of
bar_value_of-abs buf = ground (
  arith,
  bar_digits-lt 4 6 buf 2 0 0 (omega arith) (omega arith),
  bar_digits-lt 3 5 buf 3 0 0 (omega arith) (omega arith),
  abs-neg_of (bar_digits 3 5 buf 3 0 0),
)

pub update_bar-DisplayIsValid :
    (f : Frame) (d : Display) → DisplayIsValid d → DisplayIsValid (update_bar f d)
unfolding update_bar
update_bar-DisplayIsValid f d v = ground (arith, bar_value_of-abs f.input_buf)

pub publish_annunciators-DisplayIsValid :
    (h l : ℕ) (d : Display) → DisplayIsValid d → DisplayIsValid (publish_annunciators h l d)
unfolding publish_annunciators
publish_annunciators-DisplayIsValid h l d v =
    let state : ℕ = bit_or (h * 256) l in
    ground (
      arith,
      bit_and-le state 0xf7ff,
      bit_and-le d.ann_state 0x0800,
      bit_or-lt 16 (bit_and state 0xf7ff) (bit_and d.ann_state 0x0800),
    )

control_position-lt : (cmd : ℕ) {k : ℕ} → control_position cmd ≡ some k → k < 12
unfolding control_position
control_position-lt cmd h = ground arith

set_blink-DisplayIsValid :
    (o : Option ℕ) (d : Display)
    → ((k : ℕ) → o ≡ some k → k < 12)
    → DisplayIsValid d
    → DisplayIsValid (set_blink o d)
unfolding set_blink
set_blink-DisplayIsValid none d h v = v
set_blink-DisplayIsValid (some k) d h v =
    let below : k < 12 = h k refl in
    let small : 2 ^ k ≤ 2 ^ 11 = pow-le-pow_right {n = 2} (omega arith) {j = 11} (omega arith) in
    ground arith

pub decode_control-DisplayIsValid :
    (f : Frame) (d : Display) → DisplayIsValid d → DisplayIsValid (decode_control f d)
unfolding decode_control
decode_control-DisplayIsValid f d v =
    let cmd : ℕ = bit_or (get_or f.input_buf 0 0 * 256) (get_or f.input_buf 1 0) in
    let blinked =
      set_blink-DisplayIsValid (control_position cmd) d (λ k e. control_position-lt cmd e) v in
    ground arith

pub process_reset-IsValid : (ctx : Context) → IsValid ctx → IsValid (process_reset ctx)
unfolding process_reset
process_reset-IsValid ctx v = ground arith

pub process_shift_window-IsValid :
    (now : ℕ) (ctx : Context) → IsValid ctx → IsValid (process_shift_window now ctx)
unfolding process_shift_window
process_shift_window-IsValid now ctx v = ground (arith, bit_xor-lt 16 ctx.display.ann_state 0x0800)
