-- ===== src/Common/Words.antt =====
-- Casts to the fixed widths, and subtraction that wraps.
use Prim.Native.Nat.{ℕ, ◌+◌, ◌-◌, ◌%◌}

abbrev pub u8 : ℕ → ℕ
u8 n = n % 256

abbrev pub u16 : ℕ → ℕ
u16 n = n % 65536

abbrev pub u32 : ℕ → ℕ
u32 n = n % 4294967296

-- uint32_t subtraction.
abbrev pub sub32 : ℕ → ℕ → ℕ
sub32 a b = u32 (a + (4294967296 - u32 b))

-- `x++` on a uint32_t and on a uint8_t.
abbrev pub inc32 : ℕ → ℕ
inc32 n = u32 (n + 1)

abbrev pub inc8 : ℕ → ℕ
inc8 n = u8 (n + 1)
