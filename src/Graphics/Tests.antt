-- ===== src/Graphics/Tests.antt =====
-- The theorems on the LCD controller at concrete inputs, with a chip that is always ready.
use lcdpico_34401a.Common.{◌+◌, ◌*◌, ◌/◌, ◌%◌, ◌≡◌, refl, arith, true, some}
use lcdpico_34401a.Graphics.Registers.{
  pcsr_reg, hdwr_reg, hdwrftr_reg, hndr_reg, hndrftr_reg, vhdr_reg, vndr_reg, vstr_reg, vpwr_reg,
  blt_ctrl0_reg,
}
use lcdpico_34401a.Graphics.Spi.{spi_rw_byte, spi_cmd_write, spi_data_read, spi_read_register}
use lcdpico_34401a.Graphics.Sim.{Sim, sim, sim_chip, sim_start}
use lcdpico_34401a.Graphics.Jobs.{Place, Job, Fits, JobFits, job_of, word16}
use lcdpico_34401a.Graphics.Engine.{lt7680_bte_memory_copy}
use lcdpico_34401a.Graphics.Copies.{lt7680_bte_memory_copy-job}
use lcdpico_34401a.Graphics.Start.{lt7680_init}
use lcdpico_34401a.Graphics.Started.{Starts, lt7680_init-panel}

sim_starts : Starts sim sim_chip
unfolding spi_read_register spi_cmd_write spi_data_read spi_rw_byte
sim_starts = record {
  max_rounds = 0;
  written-sleep = λ n i s. refl;
  pll_lem = λ s. (0, omega arith, refl);
  sdram_lem = λ s. (0, omega arith, refl);
}

abbrev glyphs : Place
glyphs = record { addr = 921600; width = 1024; x = 320; y = 80 }

abbrev glyph_copy : Job
glyph_copy = record {
  dt = record { addr = 460800; width = 240; x = 20; y = 880 };
  s0 = glyphs;
  s1 = glyphs;
  w = 200;
  h = 80;
  rop = 12;
  op = 2;
}

glyphs-Fits : Fits glyphs
glyphs-Fits = record {
  addr_fits = omega arith;
  width_fits = omega arith;
  width_even = refl;
  x_fits = omega arith;
  y_fits = omega arith;
}

glyph_copy-JobFits : JobFits glyph_copy
glyph_copy-JobFits = record {
  dt_fits = record {
    addr_fits = omega arith;
    width_fits = omega arith;
    width_even = refl;
    x_fits = omega arith;
    y_fits = omega arith;
  };
  s0_fits = glyphs-Fits;
  s1_fits = glyphs-Fits;
  w_fits = omega arith;
  h_fits = omega arith;
  rop_fits = omega arith;
  op_fits = omega arith;
}

lt7680_bte_memory_copy-job_example :
    (t : Sim) × (lt7680_bte_memory_copy sim 1 460800 240 20 880 921600 1024 320 80 921600 1024 320
        80 200 80 12 sim_start
      ≡ some t)
    × (job_of t.regs ≡ glyph_copy)
    × (t.regs blt_ctrl0_reg / 16 % 2 ≡ 1)
lt7680_bte_memory_copy-job_example =
    lt7680_bte_memory_copy-job sim sim_chip glyph_copy sim_start glyph_copy-JobFits refl

lt7680_init-panel_example :
    (t : Sim) × (lt7680_init sim 1 sim_start ≡ some (true, t))
    × (((t.regs hdwr_reg + 1) * 8 + t.regs hdwrftr_reg ≡ 240)
        × (word16 t.regs vhdr_reg + 1 ≡ 960)
        × ((t.regs hndr_reg + 1) * 8 + t.regs hndrftr_reg ≡ 128)
        × (word16 t.regs vndr_reg + 1 ≡ 11)
        × (t.regs vstr_reg + 1 ≡ 5)
        × (t.regs vpwr_reg + 1 ≡ 5)
        × (t.regs pcsr_reg ≡ 0))
unfolding sim_starts
lt7680_init-panel_example = lt7680_init-panel sim sim_chip sim_starts sim_start
