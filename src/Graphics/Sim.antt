-- ===== src/Graphics/Sim.antt =====
-- A chip that is always ready, byte for byte, for the theorems at concrete inputs.
use lcdpico_34401a.Common.{
  ℕ, ◌≡◌, refl, arith, true, not, Option, none, some, ◌==◌, List, [], ◌∷◌, ◌++◌, if◌then◌else◌,
}
use lcdpico_34401a.Graphics.Spi.{Bus}
use lcdpico_34401a.Graphics.Chip.{Chip}
use lcdpico_34401a.Graphics.Jobs.{Job, job_of}
use lcdpico_34401a.Graphics.Runs.{is_start, JobEngine}

-- The frame's first byte, if one was sent, the register that is chosen, the registers, and the jobs
-- that the engine has run.
pub record Sim : Type 0 where
  pub kind : Option ℕ
  pub sel : ℕ
  pub regs : ℕ → ℕ
  pub ran : List Job

-- The configuration register reads as ready, and so does the status.
abbrev pub sim_byte : ℕ → Sim → ℕ × Sim
sim_byte b s = elim s.kind [
  | none ↦ (0, record s { kind = some b })
  | some k ↦
      if k == 0
      then (0, record s { sel = b })
      else if k == 128
      then (
        0,
        record s {
          regs = λ i. if s.sel == i then b else s.regs i;
          ran = if is_start s.sel b then s.ran ++ (job_of s.regs ∷ []) else s.ran;
        },
      )
      else if k == 64
      then (68, s)
      else (if s.sel == 1 then 128 else s.regs s.sel, s)
]

abbrev pub sim : Bus Sim
sim = record {
  set_cs = λ b s. record s { kind = none };
  spi_write_read_blocking = sim_byte;
  set_reset = λ b s. s;
  sleep_ms = λ n s. s;
}

pub stored_read : (r a b : ℕ) → not (r == 1) ≡ true → (if r == 1 then a else b) ≡ b
stored_read r a b h = ground arith

abbrev pub sim_chip : Chip sim
sim_chip = record {
  chosen = λ s. s.sel;
  written = λ s. s.regs;
  stores = λ r. not (r == 1);
  max_busy = 0;
  chosen-command = λ r s. refl;
  written-command = λ r i s. refl;
  written-data = λ d i s. refl;
  written-read = λ i s. refl;
  read_lem = λ s h. stored_read s.sel 128 (s.regs s.sel) h;
  written-status = λ i s. refl;
  idle_lem = λ s. (0, omega arith, refl);
}

-- Its engine is idle again at once.
abbrev pub sim_engine : JobEngine sim sim_chip
sim_engine = record {
  jobs = λ s. (s.ran, true);
  jobs-command = λ r s. refl;
  jobs-read = λ s. refl;
  jobs-data = λ d s h. rw h refl;
  jobs-start = λ d s h g. rw h refl;
  jobs-status = λ s. refl;
  jobs-idle = λ s h. refl;
}

abbrev pub sim_start : Sim
sim_start = record { kind = none; sel = 0; regs = λ i. 0; ran = [] }
