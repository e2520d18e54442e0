-- ===== src/Graphics/Chip.antt =====
-- What src/lt7680.c relies on of the LT7680, and what its writes of registers come to. Two bytes
-- under chip select make a frame: the first says what the second is.
use lcdpico_34401a.Common.{
  ℕ, zero, suc, ◌≤◌, ◌≡◌, refl, ap, ap₂, ◌∙◌, Bool, true, false, List, [], ◌∷◌, ◌++◌, ◌==◌,
  if◌then◌else◌, u8, bit_and,
}
use lcdpico_34401a.Graphics.Spi.{
  Bus, spi_cmd_write, spi_data_write, spi_data_read, spi_read_register, spi_write_register,
}

-- A frame, with the byte that is received last.
abbrev pub frame : {S : Type 0} → Bus S → ℕ → ℕ → S → ℕ × S
frame {S = S} bus kind byte s =
    let started : S = (bus.spi_write_read_blocking kind (bus.set_cs false s)).1 in
    let r : ℕ × S = bus.spi_write_read_blocking byte started in (r.0, bus.set_cs true r.1)

-- The status that the read number `k` from here gives.
abbrev pub status_at : {S : Type 0} → Bus S → ℕ → S → ℕ
status_at bus zero s = (frame bus 64 0 s).0
status_at bus (suc k) s = status_at bus k (frame bus 64 0 s).1

-- The chip by its data sheet: a frame 0x00 selects a register, a frame 0x80 writes to it, a frame
-- 0xc0 reads it, and a frame 0x40 reads the status. What was last written to each register is kept;
-- the registers of `stores` read back what was written. Of any `max_busy + 1` reads of the status one
-- has the core idle.
pub record Chip {S : Type 0} (bus : Bus S) : Type 0 where
  pub chosen : S → ℕ
  pub written : S → ℕ → ℕ
  pub stores : ℕ → Bool
  pub max_busy : ℕ
  pub chosen-command : (r : ℕ) (s : S) → chosen (frame bus 0 r s).1 ≡ r
  pub written-command : (r i : ℕ) (s : S) → written (frame bus 0 r s).1 i ≡ written s i
  pub written-data :
      (d i : ℕ) (s : S)
      → written (frame bus 128 d s).1 i ≡ (if chosen s == i then d else written s i)
  pub written-read : (i : ℕ) (s : S) → written (frame bus 192 0 s).1 i ≡ written s i
  pub read_lem : (s : S) → stores (chosen s) ≡ true → (frame bus 192 0 s).0 ≡ written s (chosen s)
  pub written-status : (i : ℕ) (s : S) → written (frame bus 64 0 s).1 i ≡ written s i
  pub idle_lem : (s : S) → (k : ℕ) × (k ≤ max_busy) × (bit_and (status_at bus k s) 8 ≡ 0)

-- A register's byte after writes in order: the last write to it counts.
abbrev pub latched : List (ℕ × ℕ) → ℕ → ℕ → ℕ
latched [] old i = old
latched (w ∷ ws) old i = latched ws (if u8 w.0 == i then u8 w.1 else old) i

module _ {S : Type 0} (bus : Bus S) where
  abbrev pub writes : List (ℕ × ℕ) → S → S
  writes [] s = s
  writes (w ∷ ws) s = writes ws (spi_write_register bus w.0 w.1 s)

  pub writes-append : (ws vs : List (ℕ × ℕ)) (s : S) → writes (ws ++ vs) s ≡ writes vs (writes ws s)
  writes-append [] vs s = refl
  writes-append (w ∷ ws) vs s = writes-append ws vs (spi_write_register bus w.0 w.1 s)

  module _ (chip : Chip bus) where
    pub written-cmd : (r i : ℕ) (s : S) → chip.written (spi_cmd_write bus r s) i ≡ chip.written s i
    unfolding spi_cmd_write
    written-cmd r i s = chip.written-command (u8 r) i s

    pub chosen-cmd : (r : ℕ) (s : S) → chip.chosen (spi_cmd_write bus r s) ≡ u8 r
    unfolding spi_cmd_write
    chosen-cmd r s = chip.chosen-command (u8 r) s

    pub written-register :
        (r v i : ℕ) (s : S)
        → chip.written (spi_write_register bus r v s) i
          ≡ (if u8 r == i then u8 v else chip.written s i)
    unfolding spi_write_register spi_data_write
    written-register r v i s =
        chip.written-data (u8 v) i (spi_cmd_write bus r s)
        ∙ ap₂ (λ j old. if j == i then u8 v else old) (chosen-cmd r s) (written-cmd r i s)

    pub written-writes :
        (ws : List (ℕ × ℕ)) (s : S) (i : ℕ)
        → chip.written (writes ws s) i ≡ latched ws (chip.written s i) i
    written-writes [] s i = refl
    written-writes (w ∷ ws) s i =
        written-writes ws (spi_write_register bus w.0 w.1 s) i
        ∙ ap (λ old. latched ws old i) (written-register w.0 w.1 i s)

    pub written-reading :
        (r i : ℕ) (s : S) → chip.written (spi_read_register bus r s).1 i ≡ chip.written s i
    unfolding spi_read_register spi_data_read
    written-reading r i s = chip.written-read i (spi_cmd_write bus r s) ∙ written-cmd r i s

    pub reading_lem :
        (r : ℕ) (s : S)
        → chip.stores (u8 r) ≡ true
        → (spi_read_register bus r s).0 ≡ chip.written s (u8 r)
    unfolding spi_read_register spi_data_read
    reading_lem r s h =
        chip.read_lem (spi_cmd_write bus r s) (rw (chosen-cmd r s) h)
        ∙ (ap (chip.written (spi_cmd_write bus r s)) (chosen-cmd r s) ∙ written-cmd r (u8 r) s)
