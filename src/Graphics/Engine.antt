-- ===== src/Graphics/Engine.antt =====
-- The block transfer engine of src/lt7680.c, and its other operations that read what they change.
use lcdpico_34401a.Common.{
  ℕ, ◌+◌, ◌-◌, ◌*◌, ◌^◌, Bool, true, Option, none, some, if◌then◌else◌, u8, u32, bit_and, bit_or,
}
use lcdpico_34401a.Graphics.Registers.{
  dpcr_reg, dcr1_reg, blt_ctrl0_reg, blt_ctrl1_reg, blt_colr_reg,
}
use lcdpico_34401a.Graphics.Spi.{Bus, ◌▷◌, spi_read_register, spi_write_register}
use lcdpico_34401a.Graphics.Status.{after, lt7680_core_idle_wait}
use lcdpico_34401a.Graphics.Settings.{
  lt7680_set_dt_addr, lt7680_set_dt_width, lt7680_set_dt_xy, lt7680_set_s0_addr,
  lt7680_set_s0_width, lt7680_set_s0_xy, lt7680_set_s1_addr, lt7680_set_s1_width, lt7680_set_s1_xy,
  lt7680_set_bte_wh, lt7680_set_fg_16bpp, lt7680_draw_point1_xy, lt7680_draw_point2_xy,
}

-- `~x` on a uint32_t.
abbrev complement : ℕ → ℕ
complement x = 4294967295 - x

-- The field of `len` bits from bit `bit` down. The shift count is a uint8_t; bits
-- that leave the word fall off, where C leaves a shift by 32 or more undefined.
unfoldable pub set_bits_u32 : ℕ → ℕ → ℕ → ℕ → ℕ
set_bits_u32 var bit len val =
    let mask : ℕ = 2 ^ len - 1 in
    let shift : ℕ = u8 (bit + 256 - (len - 1)) in
    bit_or (bit_and var (complement (u32 (mask * 2 ^ shift)))) (u32 (bit_and val mask * 2 ^ shift))

module _ {S : Type 0} (bus : Bus S) where
  -- A field of a register is replaced.
  abbrev change_field : ℕ → ℕ → ℕ → ℕ → S → S
  change_field reg bit len val s =
      let r : ℕ × S = spi_read_register bus reg s in
      r.1 ▷ spi_write_register bus reg (set_bits_u32 r.0 bit len val)

  unfoldable pub lt7680_set_dt_color_depth : ℕ → S → S
  lt7680_set_dt_color_depth depth s = change_field blt_colr_reg 0 2 depth s

  unfoldable pub lt7680_set_s0_color_depth : ℕ → S → S
  lt7680_set_s0_color_depth depth s = change_field blt_colr_reg 6 2 depth s

  unfoldable pub lt7680_set_s1_color_depth : ℕ → S → S
  lt7680_set_s1_color_depth depth s = change_field blt_colr_reg 4 3 depth s

  unfoldable pub lt7680_set_bte_mode : ℕ → ℕ → S → S
  lt7680_set_bte_mode rop op s =
      s ▷ spi_write_register bus blt_ctrl1_reg (bit_or (rop * 16) (bit_and op 15))

  unfoldable pub lt7680_bte_on : Bool → S → S
  lt7680_bte_on bte_on s = change_field blt_ctrl0_reg 4 1 (if bte_on then 1 else 0) s

  unfoldable pub lt7680_display_on : Bool → S → S
  lt7680_display_on display_on s =
      let r : ℕ × S = spi_read_register bus dpcr_reg s in
      let reg : ℕ = if display_on then bit_or r.0 (2 ^ 6) else bit_and r.0 (complement (2 ^ 6)) in
      r.1 ▷ spi_write_register bus dpcr_reg (u8 reg) ▷ bus.sleep_ms 1

  -- The registers of a copy are set, and the engine is started.
  unfoldable pub start_copy : ℕ → ℕ → ℕ → ℕ → ℕ → ℕ → ℕ → ℕ → ℕ → ℕ → ℕ → ℕ → ℕ → ℕ → ℕ → S → S
  start_copy d_addr d_w d_x d_y s0_addr s0_w s0_x s0_y s1_addr s1_w s1_x s1_y w h rop s =
      s
      ▷ lt7680_set_dt_addr bus d_addr
      ▷ lt7680_set_dt_width bus d_w
      ▷ lt7680_set_dt_xy bus d_x d_y
      ▷ lt7680_set_s0_addr bus s0_addr
      ▷ lt7680_set_s0_width bus s0_w
      ▷ lt7680_set_s0_xy bus s0_x s0_y
      ▷ lt7680_set_s1_addr bus s1_addr
      ▷ lt7680_set_s1_width bus s1_w
      ▷ lt7680_set_s1_xy bus s1_x s1_y
      ▷ lt7680_set_bte_wh bus w h
      ▷ lt7680_set_bte_mode rop 2
      ▷ lt7680_bte_on true

  unfoldable pub lt7680_bte_memory_copy :
      ℕ → ℕ → ℕ → ℕ → ℕ → ℕ → ℕ → ℕ → ℕ → ℕ → ℕ → ℕ → ℕ → ℕ → ℕ → ℕ → S → Option S
  lt7680_bte_memory_copy fuel d_addr d_w d_x d_y s0_addr s0_w s0_x s0_y s1_addr s1_w s1_x s1_y w h
        rop s =
      s
      ▷ start_copy d_addr d_w d_x d_y s0_addr s0_w s0_x s0_y s1_addr s1_w s1_x s1_y w h rop
      ▷ lt7680_core_idle_wait bus fuel
      ▷ after

  unfoldable pub lt7680_bte_solid_fill : ℕ → ℕ → ℕ → ℕ → ℕ → ℕ → ℕ → ℕ → S → Option S
  lt7680_bte_solid_fill fuel d_addr d_w d_x d_y w h color s =
      s
      ▷ lt7680_set_dt_addr bus d_addr
      ▷ lt7680_set_dt_width bus d_w
      ▷ lt7680_set_dt_xy bus d_x d_y
      ▷ lt7680_set_bte_wh bus w h
      ▷ lt7680_set_fg_16bpp bus color
      ▷ lt7680_set_bte_mode 0 12
      ▷ lt7680_bte_on true
      ▷ lt7680_core_idle_wait bus fuel
      ▷ after

  unfoldable pub lt7680_draw_rect : ℕ → ℕ → ℕ → ℕ → ℕ → Bool → S → Option S
  lt7680_draw_rect fuel x1 y1 x2 y2 fill s =
      let points : S = s ▷ lt7680_draw_point1_xy bus x1 y1 ▷ lt7680_draw_point2_xy bus x2 y2 in
      elim (lt7680_core_idle_wait bus fuel points) [
        | none ↦ none
        | some r ↦
            r.1
            ▷ spi_write_register bus dcr1_reg (if fill then 224 else 160)
            ▷ lt7680_core_idle_wait bus fuel
            ▷ after
      ]
