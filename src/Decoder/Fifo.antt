-- ===== src/Decoder/Fifo.antt =====
-- The byte FIFO as a queue: what `fifo_append` and the loop's read do to its contents.
pub mod Queue
use lcdpico_34401a.Common.{
  ℕ, zero, suc, ◌+◌, ◌-◌, ◌%◌, ◌≤◌, ◌<◌, ◌≡◌, ◌≢◌, refl, ap, ap₂, sym, ◌∙◌, arith, List, [], ◌∷◌,
  ◌++◌, length, get_or, set, get_or-set_self, get_or-set_ne,
}
use lcdpico_34401a.Decoder.State.{SniffByte, Sniff}

abbrev pub no_byte : SniffByte
no_byte = record { input = 0; output = 0 }

-- The `n` entries from index `i` on, round the end of the array.
abbrev pub window : List SniffByte → ℕ → ℕ → List SniffByte
window cells i zero = []
window cells i (suc n) = get_or cells (i % 256) no_byte ∷ window cells (i + 1) n

-- How many entries wait, and which, oldest first.
abbrev pub level : Sniff → ℕ
level s = (s.fifo_wr + 256 - s.fifo_rd) % 256

abbrev pub contents : Sniff → List SniffByte
contents s = window s.byte_fifo s.fifo_rd (level s)

pub length-window : (cells : List SniffByte) (i n : ℕ) → length (window cells i n) ≡ n
length-window cells i zero = refl
length-window cells i (suc n) = ap suc (length-window cells (i + 1) n)

-- A write behind the window does not show in it.
window-set_behind :
    (cells : List SniffByte) (b : SniffByte) (j i n k : ℕ)
    → n ≤ k
    → k < 256
    → j ≡ (i + k) % 256
    → window (set cells j b) i n ≡ window cells i n
window-set_behind cells b j i zero k p q e = refl
window-set_behind cells b j i (suc n) zero p q e = absurd (omega arith)
window-set_behind cells b j i (suc n) (suc k) p q e =
    ap₂ ◌∷◌ (get_or-set_ne cells j (i % 256) b no_byte (omega arith))
      (window-set_behind cells b j (i + 1) n k (omega arith) (omega arith) (omega arith))

-- A write just behind the window extends it.
pub window-set_end :
    (cells : List SniffByte) (b : SniffByte) (j i n : ℕ)
    → length cells ≡ 256
    → n < 256
    → j ≡ (i + n) % 256
    → window (set cells j b) i (suc n) ≡ window cells i n ++ (b ∷ [])
window-set_end cells b j i zero e p at =
    let here : i % 256 ≡ j = omega arith in
    rw (here, get_or-set_self cells j b no_byte (omega arith))
window-set_end cells b j i (suc n) e p at =
    ap₂ ◌∷◌ (get_or-set_ne cells j (i % 256) b no_byte (omega arith))
      (window-set_end cells b j (i + 1) n e (omega arith) (omega arith))

-- `window` matches on `suc`, the code tests the indices.
pub window_of_pos :
    (cells : List SniffByte) (i n : ℕ)
    → 0 < n
    → window cells i n ≡ get_or cells (i % 256) no_byte ∷ window cells (i + 1) (n - 1)
window_of_pos cells i zero p = absurd (omega arith)
window_of_pos cells i (suc n) p =
    ap (λ k. get_or cells (i % 256) no_byte ∷ window cells (i + 1) k) (omega arith)

-- The start index counts up to the array's length only.
pub window-mod : (cells : List SniffByte) (i n : ℕ) → window cells (i % 256) n ≡ window cells i n
window-mod cells i zero = refl
window-mod cells i (suc n) =
    let twice : i % 256 % 256 ≡ i % 256 = omega arith in
    let on : (i % 256 + 1) % 256 ≡ (i + 1) % 256 = omega arith in
    rw twice (
      ap (λ t. get_or cells (i % 256) no_byte ∷ t)
        (sym (window-mod cells (i % 256 + 1) n) ∙ rw on (window-mod cells (i + 1) n)))
