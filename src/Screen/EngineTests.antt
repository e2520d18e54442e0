-- ===== src/Screen/EngineTests.antt =====
-- The refresh on a controller that is always ready.
use lcdpico_34401a.Common.{◌≡◌, refl, arith, false, List, replicate, some, map}
use lcdpico_34401a.Screen.Cells.{Cell}
use lcdpico_34401a.Screen.Refresh.{Copy}
use lcdpico_34401a.Screen.Update.{Lcd, Call, update_copies}
use lcdpico_34401a.Screen.Engine.Refinement.{Ran, drive, job_of_copy, drive-Ran}
use lcdpico_34401a.Graphics.Registers.{misa_reg}
use lcdpico_34401a.Graphics.Jobs.{word32}
use lcdpico_34401a.Graphics.Sim.{Sim, sim, sim_chip, sim_engine, sim_start}

abbrev blank_cell : Cell
blank_cell = record { c = 32; flags = 0; blink = false }

abbrev old_lcd : Lcd
old_lcd = record {
  state = 1;
  cells0 = replicate 12 blank_cell;
  cells1 = replicate 12 blank_cell;
  ind0 = 0;
  ind1 = 0;
  max_delta = 0;
  min_delta = 0;
  misa = 0;
}

abbrev a_call : Call
a_call = record { characters = 921600; lights = 3000000; clock = λ i. 0; delta = 900 }

abbrev seven : Cell
seven = record { c = b'7'; flags = 1; blink = false }

abbrev sevens : List Copy
sevens = update_copies a_call false (replicate 12 seven) 6 old_lcd

drive-Ran_example :
    (t : Sim) × (u : Sim) × Ran sim sim_chip 1 (λ a. 760) sevens sim_start t
    × (drive sim 1 (λ a. 760) sevens 460800 sim_start ≡ some u)
    × (u.ran ≡ map (job_of_copy (λ a. 760)) sevens)
    × (word32 u.regs misa_reg ≡ 460800)
drive-Ran_example =
    drive-Ran sim sim_chip sim_engine a_call false (replicate 12 seven) 6 old_lcd (λ a. 760)
      sim_start (omega arith) (omega arith) (λ a. (omega arith, refl)) refl
