-- ===== src/Graphics/Settings.antt =====
-- The settings of src/lt7680.c that only write registers: frames, windows, colours and points.
use lcdpico_34401a.Common.{ℕ, ◌*◌, ◌/◌, bit_and}
use lcdpico_34401a.Graphics.Registers.{
  misa_reg, cvssa_reg, cvsimwth_reg, awulx_reg, awuly_reg, awwth_reg, awht_reg, curh_reg, curv_reg,
  f_curx_reg, f_cury_reg, s0_str_reg, s0_wth_reg, s0_x_reg, s0_y_reg, s1_str_reg, s1_wth_reg,
  s1_x_reg, s1_y_reg, dt_str_reg, dt_wth_reg, dt_x_reg, dt_y_reg, blt_wth_reg, blt_hig_reg,
  fgcr_reg, fgcg_reg, fgcb_reg, bgcr_reg, bgcg_reg, bgcb_reg, dlhsr_reg, dlvsr_reg, dlher_reg,
  dlver_reg, dtph_reg, dtpv_reg,
}
use lcdpico_34401a.Graphics.Spi.{
  Bus, ◌▷◌, spi_write_register, spi_write_register_u16, spi_write_register_u32,
}

module _ {S : Type 0} (bus : Bus S) where
  unfoldable pub lt7680_set_fg_16bpp : ℕ → S → S
  lt7680_set_fg_16bpp color s =
      s
      ▷ spi_write_register bus fgcr_reg (color / 256)
      ▷ spi_write_register bus fgcg_reg (color / 8)
      ▷ spi_write_register bus fgcb_reg (color * 8)

  unfoldable pub lt7680_set_bg_16bpp : ℕ → S → S
  lt7680_set_bg_16bpp color s =
      s
      ▷ spi_write_register bus bgcr_reg (color / 256)
      ▷ spi_write_register bus bgcg_reg (color / 8)
      ▷ spi_write_register bus bgcb_reg (color * 8)

  unfoldable pub lt7680_set_misa_addr : ℕ → S → S
  lt7680_set_misa_addr addr s = s ▷ spi_write_register_u32 bus misa_reg (bit_and addr 4294967292)

  unfoldable pub lt7680_set_graphics_addr : ℕ → S → S
  lt7680_set_graphics_addr addr s = s ▷ spi_write_register_u32 bus curh_reg addr

  unfoldable pub lt7680_set_graphics_xy : ℕ → ℕ → S → S
  lt7680_set_graphics_xy x y s =
      s
      ▷ spi_write_register_u16 bus curh_reg (bit_and x 8191)
      ▷ spi_write_register_u16 bus curv_reg (bit_and y 8191)

  unfoldable pub lt7680_set_text_xy : ℕ → ℕ → S → S
  lt7680_set_text_xy x y s =
      s
      ▷ spi_write_register_u16 bus f_curx_reg (bit_and x 8191)
      ▷ spi_write_register_u16 bus f_cury_reg (bit_and y 8191)

  unfoldable pub lt7680_set_canvas_addr : ℕ → S → S
  lt7680_set_canvas_addr addr s = s ▷ spi_write_register_u32 bus cvssa_reg (bit_and addr 4294967292)

  unfoldable pub lt7680_set_canvas_width : ℕ → S → S
  lt7680_set_canvas_width width s =
      s ▷ spi_write_register_u32 bus cvsimwth_reg (bit_and width 16380)

  unfoldable pub lt7680_set_active_window_xy : ℕ → ℕ → S → S
  lt7680_set_active_window_xy x y s =
      s
      ▷ spi_write_register_u16 bus awulx_reg (bit_and x 8191)
      ▷ spi_write_register_u16 bus awuly_reg (bit_and y 8191)

  unfoldable pub lt7680_set_active_window_wh : ℕ → ℕ → S → S
  lt7680_set_active_window_wh w h s =
      s
      ▷ spi_write_register_u16 bus awwth_reg (bit_and w 16383)
      ▷ spi_write_register_u16 bus awht_reg (bit_and h 16383)

  unfoldable pub lt7680_set_s0_addr : ℕ → S → S
  lt7680_set_s0_addr addr s = s ▷ spi_write_register_u32 bus s0_str_reg addr

  unfoldable pub lt7680_set_s0_width : ℕ → S → S
  lt7680_set_s0_width width s = s ▷ spi_write_register_u32 bus s0_wth_reg (bit_and width 8188)

  unfoldable pub lt7680_set_s0_xy : ℕ → ℕ → S → S
  lt7680_set_s0_xy x y s =
      s
      ▷ spi_write_register_u16 bus s0_x_reg (bit_and x 8191)
      ▷ spi_write_register_u16 bus s0_y_reg (bit_and y 8191)

  unfoldable pub lt7680_set_s1_addr : ℕ → S → S
  lt7680_set_s1_addr addr s = s ▷ spi_write_register_u32 bus s1_str_reg addr

  unfoldable pub lt7680_set_s1_width : ℕ → S → S
  lt7680_set_s1_width width s = s ▷ spi_write_register_u32 bus s1_wth_reg (bit_and width 8188)

  unfoldable pub lt7680_set_s1_xy : ℕ → ℕ → S → S
  lt7680_set_s1_xy x y s =
      s
      ▷ spi_write_register_u16 bus s1_x_reg (bit_and x 8191)
      ▷ spi_write_register_u16 bus s1_y_reg (bit_and y 8191)

  unfoldable pub lt7680_set_dt_addr : ℕ → S → S
  lt7680_set_dt_addr addr s = s ▷ spi_write_register_u32 bus dt_str_reg addr

  unfoldable pub lt7680_set_dt_width : ℕ → S → S
  lt7680_set_dt_width width s = s ▷ spi_write_register_u32 bus dt_wth_reg (bit_and width 8188)

  unfoldable pub lt7680_set_dt_xy : ℕ → ℕ → S → S
  lt7680_set_dt_xy x y s =
      s
      ▷ spi_write_register_u16 bus dt_x_reg (bit_and x 8191)
      ▷ spi_write_register_u16 bus dt_y_reg (bit_and y 8191)

  unfoldable pub lt7680_set_bte_wh : ℕ → ℕ → S → S
  lt7680_set_bte_wh width height s =
      s
      ▷ spi_write_register_u32 bus blt_wth_reg (bit_and width 8191)
      ▷ spi_write_register_u32 bus blt_hig_reg (bit_and height 8191)

  unfoldable pub lt7680_draw_point1_xy : ℕ → ℕ → S → S
  lt7680_draw_point1_xy x y s =
      s ▷ spi_write_register_u16 bus dlhsr_reg x ▷ spi_write_register_u16 bus dlvsr_reg y

  unfoldable pub lt7680_draw_point2_xy : ℕ → ℕ → S → S
  lt7680_draw_point2_xy x y s =
      s ▷ spi_write_register_u16 bus dlher_reg x ▷ spi_write_register_u16 bus dlver_reg y

  unfoldable pub lt7680_draw_point3_xy : ℕ → ℕ → S → S
  lt7680_draw_point3_xy x y s =
      s ▷ spi_write_register_u16 bus dtph_reg x ▷ spi_write_register_u16 bus dtpv_reg y
