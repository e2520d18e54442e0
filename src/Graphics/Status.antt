-- ===== src/Graphics/Status.antt =====
-- The waits of src/lt7680.c, which read the status until the chip is ready, on fuel.
use lcdpico_34401a.Common.{
  ℕ, zero, suc, ◌==◌, List, [], ◌∷◌, Option, none, some, if◌then◌else◌, bit_and,
}
use lcdpico_34401a.Graphics.Spi.{Bus, spi_status_read, spi_data_write}

-- A wait whose status is not used.
abbrev pub after : {S : Type 0} → Option (ℕ × S) → Option S
after none = none
after (some (status, s)) = some s

module _ {S : Type 0} (bus : Bus S) where
  -- The loops that wait for a bit of the status, on fuel.
  unfoldable pub lt7680_core_idle_wait : ℕ → S → Option (ℕ × S)
  lt7680_core_idle_wait zero s = none
  lt7680_core_idle_wait (suc fuel) s =
      let status = spi_status_read bus s in
      let rest = lt7680_core_idle_wait fuel status.1 in
      if bit_and status.0 8 == 0 then some status else rest

  unfoldable pub lt7680_wr_fifo_notfull_wait : ℕ → S → Option (ℕ × S)
  lt7680_wr_fifo_notfull_wait zero s = none
  lt7680_wr_fifo_notfull_wait (suc fuel) s =
      let status = spi_status_read bus s in
      let rest = lt7680_wr_fifo_notfull_wait fuel status.1 in
      if bit_and status.0 128 == 0 then some status else rest

  unfoldable pub lt7680_wr_fifo_empty_wait : ℕ → S → Option (ℕ × S)
  lt7680_wr_fifo_empty_wait zero s = none
  lt7680_wr_fifo_empty_wait (suc fuel) s =
      let status = spi_status_read bus s in
      let rest = lt7680_wr_fifo_empty_wait fuel status.1 in
      if bit_and status.0 64 == 0 then rest else some status

  -- `lt7680_write_pixels`, for a buffer of `len` bytes. Each wait has the same fuel.
  unfoldable pub write_each : ℕ → List ℕ → S → Option S
  write_each fuel [] s = some s
  write_each fuel (b ∷ buf) s = elim (lt7680_wr_fifo_notfull_wait fuel s) [
    | none ↦ none
    | some r ↦ write_each fuel buf (spi_data_write bus b r.1)
  ]

  unfoldable pub lt7680_write_pixels : ℕ → List ℕ → S → Option S
  unfolding write_each
  lt7680_write_pixels fuel buf s = elim (write_each fuel buf s) [
    | none ↦ none
    | some t ↦ after (lt7680_wr_fifo_empty_wait fuel t)
  ]
