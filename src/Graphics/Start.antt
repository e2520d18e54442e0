-- ===== src/Graphics/Start.antt =====
-- The start of the LCD controller in src/lt7680.c: the reset, the check and `lt7680_init`.
use lcdpico_34401a.Common.{
  ℕ, zero, suc, ◌+◌, ◌-◌, ◌*◌, ◌/◌, ◌%◌, ◌^◌, Bool, true, false, not, Option, none, some, ltb, ◌==◌,
  if◌then◌else◌, u8, u32, bit_and, bit_or,
}
use lcdpico_34401a.Graphics.Registers.{
  srr_reg, ccr_reg, macr_reg, icr_reg, plllc1_reg, plllc2_reg, mpllc1_reg, mpllc2_reg, cpllc1_reg,
  cpllc2_reg, mpwctr_reg, dpcr_reg, pcsr_reg, hdwr_reg, hdwrftr_reg, hndr_reg, hndrftr_reg,
  hstr_reg, hpwr_reg, vhdr_reg, vndr_reg, vstr_reg, vpwr_reg, misa_reg, miw_reg, mwulx_reg,
  mwuly_reg, cvssa_reg, cvsimwth_reg, awulx_reg, awuly_reg, awwth_reg, awht_reg, aw_color_reg,
  blt_colr_reg, sdrar_reg, sdrmd_reg, sdrref_reg, sdrcr_reg,
}
use lcdpico_34401a.Graphics.Panel.{
  lcd_width, lcd_height, lcd_vbpd, lcd_vfpd, lcd_vspw, lcd_hbpd, lcd_hfpd, lcd_hspw,
}
use lcdpico_34401a.Graphics.Spi.{
  Bus, ◌▷◌, spi_status_read, spi_read_register, spi_write_register, spi_write_register_u16,
  spi_write_register_u32,
}
use lcdpico_34401a.Graphics.Engine.{set_bits_u32}

-- The frequency in MHz that the panel's pixels need at 60 frames per second.
unfoldable pub scan_clock : ℕ
scan_clock =
    let pixels : ℕ =
      (lcd_hbpd + lcd_hfpd + lcd_hspw + lcd_width)
      * (lcd_vbpd + lcd_vfpd + lcd_vspw + lcd_height) in
    (u32 (pixels * 60) + 500000) / 1000000

-- The settings of a PLL with the divider `n`, a uint8_t.
abbrev pub pll_setting : ℕ → ℕ
pll_setting n = bit_or (bit_or (2 * 2 ^ 6) (5 * 2 ^ 1)) (bit_and (u8 n / 256) 1)

-- Times shorter than eight clocks count as none.
abbrev pub in_eights : ℕ → ℕ
in_eights n = if ltb n 8 then 0 else n / 8 - 1

module _ {S : Type 0} (bus : Bus S) where
  unfoldable pub lt7680_hw_reset : S → S
  lt7680_hw_reset s =
      s ▷ bus.set_reset false ▷ bus.sleep_ms 5 ▷ bus.set_reset true ▷ bus.sleep_ms 10

  -- One attempt of `lt7680_system_check`: whether the chip answers.
  unfoldable pub attempt : S → Bool × S
  attempt s =
      let status : ℕ × S = s ▷ bus.sleep_ms 1 ▷ spi_status_read bus in
      let temp : ℕ × S = status.1 ▷ bus.sleep_ms 2 ▷ spi_read_register bus ccr_reg in
      if bit_and status.0 2 == 0 then (not (bit_and temp.0 128 == 0), temp.1) else (false, status.1)

  -- The attempts from number `i` on, `left` of them, with a reset after each fifth that fails.
  unfoldable pub attempts : ℕ → ℕ → S → Bool × S
  attempts zero i s = (false, s)
  attempts (suc left) i s =
      let tried : Bool × S = attempt s in
      let tired : S = if (i + 1) % 5 == 0 then lt7680_hw_reset tried.1 else tried.1 in
      let rest : Bool × S = attempts left (i + 1) tired in if tried.0 then (true, tried.1) else rest

  unfoldable pub lt7680_system_check : S → Bool × S
  lt7680_system_check s = attempts 20 0 s

  -- The wait for the PLL, and the wait for the SDRAM, on fuel.
  unfoldable pub pll_wait : ℕ → S → Option S
  pll_wait zero s = none
  pll_wait (suc fuel) s =
      let tmp : ℕ × S = spi_read_register bus ccr_reg s in
      let rest : Option S = pll_wait fuel (bus.sleep_ms 1000 (spi_status_read bus tmp.1).1) in
      if bit_and tmp.0 128 == 0 then rest else some tmp.1

  unfoldable pub sdram_wait : ℕ → S → Option S
  sdram_wait zero s = none
  sdram_wait (suc fuel) s =
      let tmp : ℕ × S = spi_status_read bus s in
      let rest : Option S = sdram_wait fuel tmp.1 in
      if bit_and tmp.0 4 == 0 then rest else some tmp.1

  unfoldable pub init_pll : S → S
  init_pll s =
      let sclk : ℕ = u8 scan_clock in
      let mclk : ℕ = u8 (scan_clock * 2) in
      s
      ▷ spi_write_register bus plllc1_reg (pll_setting sclk)
      ▷ spi_write_register bus plllc2_reg sclk
      ▷ spi_write_register bus mpllc1_reg (pll_setting mclk)
      ▷ spi_write_register bus mpllc2_reg mclk
      ▷ spi_write_register bus cpllc1_reg (pll_setting mclk)
      ▷ spi_write_register bus cpllc2_reg mclk
      ▷ spi_write_register bus srr_reg 128
      ▷ bus.sleep_ms 10

  unfoldable pub init_sdram : S → S
  init_sdram s =
      s
      ▷ spi_write_register bus sdrar_reg 41
      ▷ spi_write_register bus sdrmd_reg 3
      ▷ spi_write_register_u16 bus sdrref_reg (64 * u8 (scan_clock * 2) * 1000 / 4096 - 2)
      ▷ spi_write_register bus sdrcr_reg 1

  -- The chip's configuration. The settings of the panel's signals are computed and not written.
  unfoldable pub init_chip : S → S
  init_chip s =
      let ccr : ℕ × S = s ▷ bus.sleep_ms 10 ▷ spi_read_register bus ccr_reg in
      let reg : ℕ = set_bits_u32 (set_bits_u32 ccr.0 4 2 1) 0 1 1 in
      let written : S =
        ccr.1
        ▷ spi_write_register bus ccr_reg reg
        ▷ spi_write_register bus macr_reg 64
        ▷ spi_write_register bus icr_reg 0
        ▷ spi_write_register bus dpcr_reg (set_bits_u32 0 7 1 0) in
      (spi_read_register bus pcsr_reg written).1

  unfoldable pub init_panel : S → S
  init_panel s =
      s
      ▷ spi_write_register bus hdwr_reg (lcd_width / 8 - 1)
      ▷ spi_write_register bus hdwrftr_reg (lcd_width % 8)
      ▷ spi_write_register_u16 bus vhdr_reg (lcd_height - 1)
      ▷ spi_write_register bus hndr_reg (in_eights lcd_hbpd)
      ▷ spi_write_register bus hndrftr_reg (lcd_hbpd % 8)
      ▷ spi_write_register bus hstr_reg (in_eights lcd_hfpd)
      ▷ spi_write_register bus hpwr_reg (in_eights lcd_hspw)
      ▷ spi_write_register_u16 bus vndr_reg (lcd_vbpd - 1)
      ▷ spi_write_register bus vstr_reg (lcd_vfpd - 1)
      ▷ spi_write_register bus vpwr_reg (lcd_vspw - 1)

  unfoldable pub init_windows : S → S
  init_windows s =
      let main : ℕ × S = spi_read_register bus mpwctr_reg s in
      let set : S = main.1 ▷ spi_write_register bus mpwctr_reg (set_bits_u32 main.0 3 2 1) in
      let canvas : ℕ × S = spi_read_register bus aw_color_reg set in
      canvas.1
      ▷ spi_write_register bus aw_color_reg (set_bits_u32 (set_bits_u32 canvas.0 2 1 0) 1 2 1)

  -- `lt7680_init`, which returns true.
  unfoldable pub lt7680_init : ℕ → S → Option (Bool × S)
  lt7680_init fuel s = elim (s ▷ init_pll ▷ pll_wait fuel) [
    | none ↦ none
    | some t ↦ elim (t ▷ init_sdram ▷ sdram_wait fuel) [
      | none ↦ none
      | some u ↦ some (true, u ▷ init_chip ▷ init_panel ▷ init_windows)
    ]
  ]

  -- `lt7680_setup` for a frame of `w` by `h` pixels.
  unfoldable pub lt7680_setup : ℕ → ℕ → S → S
  lt7680_setup w h s =
      let main : ℕ × S = spi_read_register bus mpwctr_reg s in
      main.1
      ▷ spi_write_register bus mpwctr_reg (set_bits_u32 main.0 3 2 1)
      ▷ spi_write_register bus blt_colr_reg 37
      ▷ spi_write_register_u32 bus misa_reg 0
      ▷ spi_write_register_u16 bus miw_reg w
      ▷ spi_write_register_u16 bus mwulx_reg 0
      ▷ spi_write_register_u16 bus mwuly_reg 0
      ▷ spi_write_register_u32 bus cvssa_reg 0
      ▷ spi_write_register_u16 bus cvsimwth_reg w
      ▷ spi_write_register_u16 bus awulx_reg 0
      ▷ spi_write_register_u16 bus awuly_reg 0
      ▷ spi_write_register_u16 bus awwth_reg w
      ▷ spi_write_register_u16 bus awht_reg h
