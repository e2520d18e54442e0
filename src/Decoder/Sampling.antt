-- ===== src/Decoder/Sampling.antt =====
-- From clock edges to byte pairs.
mod Bits
use lcdpico_34401a.Common.{
  ℕ, ◌*◌, ◌^◌, ◌%◌, ◌≤◌, Bool, true, false, List, [], ◌∷◌, if◌then◌else◌, bit_or, bit_or_step,
  bit_or-zero, ◌/◌, sub32, u8,
}
use native.Mathlib.Nat.{pow-suc, mul-le-mul_right}
use lcdpico_34401a.Decoder.State.{SniffByte, Sniff, Context}
use lcdpico_34401a.Decoder.Edge.{Edge, majority, note_noise, check_gap, shift_in, read_bit, sckedge}
use lcdpico_34401a.Decoder.Fifo.{level, contents}
use lcdpico_34401a.Decoder.Fifo.Queue.{push}
unfoldable pub use Bits.{byte_of}

-- The edge comes soon enough after the one before, if a byte has begun.
abbrev pub OnTime : Sniff → Edge → Type 0
OnTime s e = sub32 e.now_us s.last_us ≤ 1500

-- The sniffing state after the bits are shifted in.
abbrev pub shifted : Edge → Sniff → Sniff
shifted e s =
    shift_in (majority e.do_samples) (majority e.di_samples) (record s { last_us = e.now_us })

-- The context in which the bits of an edge have been shifted in.
abbrev after_bit : Edge → Context → Context
after_bit e ctx = read_bit e (check_gap e.now_us (note_noise e ctx))

-- Edges one after the other.
unfoldable pub edges : List Edge → Context → Context
edges [] ctx = ctx
edges (e ∷ es) ctx = edges es (sckedge e ctx)

-- Each edge but the first comes at most 1.5 ms after the one before.
abbrev pub Clocked : List Edge → Type 0
Clocked [] = Unit
Clocked (e ∷ []) = Unit
Clocked (e ∷ f ∷ es) = (sub32 f.now_us e.now_us ≤ 1500) × Clocked (f ∷ es)

abbrev pub do_bits : List Edge → List Bool
do_bits [] = []
do_bits (e ∷ es) = majority e.do_samples ∷ do_bits es

abbrev pub di_bits : List Edge → List Bool
di_bits [] = []
di_bits (e ∷ es) = majority e.di_samples ∷ di_bits es

abbrev queued : SniffByte → Sniff → List SniffByte
queued b s = push b (contents s) (level s)
