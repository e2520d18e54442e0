-- ===== src/Graphics/Copies.antt =====
-- `lt7680_bte_memory_copy`: what the block transfer engine is told, and the wait for its end.
use lcdpico_34401a.Common.{
  ℕ, zero, suc, ◌*◌, ◌/◌, ◌%◌, ◌<◌, ◌≡◌, refl, ap, ◌∙◌, arith, true, false, Bool-cases, inl, inr,
  ==_iff, List, [], ◌∷◌, ◌++◌, some, ◌==◌, if◌then◌else◌, u8, bit_and, bit_or, bit_or_step,
}
use mathlib.Core.Path.{fun_ext}
use lcdpico_34401a.Graphics.Registers.{
  blt_ctrl0_reg, blt_ctrl1_reg, s0_str_reg, s0_wth_reg, s0_x_reg, s0_y_reg, s1_str_reg, s1_wth_reg,
  s1_x_reg, s1_y_reg, dt_str_reg, dt_wth_reg, dt_x_reg, dt_y_reg, blt_wth_reg, blt_hig_reg,
}
use lcdpico_34401a.Graphics.Spi.{
  Bus, spi_read_register, spi_write_register_u16, spi_write_register_u32, spi_status_read,
}
use lcdpico_34401a.Graphics.Chip.{
  Chip, frame, status_at, latched, writes, written-register, written-writes, written-reading,
}
use lcdpico_34401a.Graphics.Status.{after, lt7680_core_idle_wait}
use lcdpico_34401a.Graphics.Settings.{
  lt7680_set_dt_addr, lt7680_set_dt_width, lt7680_set_dt_xy, lt7680_set_s0_addr,
  lt7680_set_s0_width, lt7680_set_s0_xy, lt7680_set_s1_addr, lt7680_set_s1_width, lt7680_set_s1_xy,
  lt7680_set_bte_wh,
}
use lcdpico_34401a.Graphics.Engine.{
  set_bits_u32, lt7680_set_bte_mode, lt7680_bte_on, start_copy, lt7680_bte_memory_copy,
}
use lcdpico_34401a.Graphics.Jobs.{
  Place, Job, JobFits, job_of, u16_writes, u32_writes, word16-eq, low13, below13, halves, Job-eq,
  place_of-eq,
}

-- Bit 4 of a word that it is set in.
pub bit_4 : (v : ℕ) → bit_or v 16 / 16 % 2 ≡ 1
bit_4 v = omega (
  arith,
  bit_or_step v 16,
  bit_or_step (v / 2) 8,
  bit_or_step (v / 2 / 2) 4,
  bit_or_step (v / 2 / 2 / 2) 2,
  bit_or_step (v / 2 / 2 / 2 / 2) 1,
)

module _ {S : Type 0} (bus : Bus S) (chip : Chip bus) where
  -- The writes of a place, in the driver's order.
  abbrev pub place_writes : ℕ → ℕ → ℕ → ℕ → Place → List (ℕ × ℕ)
  place_writes str wth rx ry p =
      u32_writes str p.addr
      ++ (u32_writes wth (bit_and p.width 8188)
          ++ (u16_writes rx (bit_and p.x 8191) ++ u16_writes ry (bit_and p.y 8191)))

  abbrev pub job_writes : Job → List (ℕ × ℕ)
  job_writes j =
      place_writes dt_str_reg dt_wth_reg dt_x_reg dt_y_reg j.dt
      ++ (place_writes s0_str_reg s0_wth_reg s0_x_reg s0_y_reg j.s0
          ++ (place_writes s1_str_reg s1_wth_reg s1_x_reg s1_y_reg j.s1
              ++ (u32_writes blt_wth_reg (bit_and j.w 8191)
                  ++ (u32_writes blt_hig_reg (bit_and j.h 8191)
                      ++ ((blt_ctrl1_reg, bit_or (j.rop * 16) (bit_and j.op 15)) ∷ [])))))

  abbrev pub start : Job → S → S
  start j =
      start_copy bus j.dt.addr j.dt.width j.dt.x j.dt.y j.s0.addr j.s0.width j.s0.x j.s0.y j.s1.addr
        j.s1.width j.s1.x j.s1.y j.w j.h j.rop

  pub start_writes :
      (j : Job) (s : S)
      → j.op ≡ 2
      → start j s ≡ lt7680_bte_on bus true (writes bus (job_writes j) s)
  unfolding start_copy lt7680_set_dt_addr lt7680_set_dt_width lt7680_set_dt_xy lt7680_set_s0_addr
      lt7680_set_s0_width lt7680_set_s0_xy lt7680_set_s1_addr lt7680_set_s1_width lt7680_set_s1_xy
      lt7680_set_bte_wh lt7680_set_bte_mode spi_write_register_u16 spi_write_register_u32
  start_writes j s e = rw e refl

  written-bte_on :
      (i : ℕ) (s : S)
      → (blt_ctrl0_reg == i) ≡ false
      → chip.written (lt7680_bte_on bus true s) i ≡ chip.written s i
  unfolding lt7680_bte_on
  written-bte_on i s h =
      let r : ℕ × S = spi_read_register bus blt_ctrl0_reg s in
      let out : chip.written (lt7680_bte_on bus true s) i
          ≡ (if blt_ctrl0_reg == i then u8 (set_bits_u32 r.0 4 1 1) else chip.written r.1 i) =
        written-register bus chip blt_ctrl0_reg (set_bits_u32 r.0 4 1 1) i r.1 in
      out ∙ rw h (written-reading bus chip blt_ctrl0_reg i s)

  started :
      (j : Job) (s : S) (i : ℕ)
      → j.op ≡ 2
      → (blt_ctrl0_reg == i) ≡ false
      → chip.written (start j s) i ≡ latched (job_writes j) (chip.written s i) i
  started j s i e h =
      ap (λ t. chip.written t i) (start_writes j s e)
      ∙ (written-bte_on i (writes bus (job_writes j) s) h
          ∙ written-writes bus chip (job_writes j) s i)

  -- Registers that hold what was last written to them in a job's writes describe the job.
  pub job_of-latched :
      (j : Job) (f old : ℕ → ℕ)
      → JobFits j
      → ((i : ℕ) → (blt_ctrl0_reg == i) ≡ false → f i ≡ latched (job_writes j) (old i) i)
      → job_of f ≡ j
  job_of-latched j f old fits at =
      Job-eq (job_of f) j
        (place_of-eq f dt_str_reg dt_wth_reg dt_x_reg dt_y_reg j.dt fits.dt_fits
          (at 167 refl, (at 168 refl, (at 169 refl, (at 170 refl, tt))))
          (at 171 refl, (at 172 refl, tt)) (at 173 refl, (at 174 refl, tt))
          (at 175 refl, (at 176 refl, tt)))
        (place_of-eq f s0_str_reg s0_wth_reg s0_x_reg s0_y_reg j.s0 fits.s0_fits
          (at 147 refl, (at 148 refl, (at 149 refl, (at 150 refl, tt))))
          (at 151 refl, (at 152 refl, tt)) (at 153 refl, (at 154 refl, tt))
          (at 155 refl, (at 156 refl, tt)))
        (place_of-eq f s1_str_reg s1_wth_reg s1_x_reg s1_y_reg j.s1 fits.s1_fits
          (at 157 refl, (at 158 refl, (at 159 refl, (at 160 refl, tt))))
          (at 161 refl, (at 162 refl, tt)) (at 163 refl, (at 164 refl, tt))
          (at 165 refl, (at 166 refl, tt)))
        (
          word16-eq f blt_wth_reg (bit_and j.w 8191) j.w (low13 j.w fits.w_fits)
              (below13 fits.w_fits) (at 177 refl) (at 178 refl),
          word16-eq f blt_hig_reg (bit_and j.h 8191) j.h (low13 j.h fits.h_fits)
              (below13 fits.h_fits) (at 179 refl) (at 180 refl),
        )
        (halves (f blt_ctrl1_reg) j.rop j.op fits.rop_fits fits.op_fits (at 145 refl))

  job_of-start : (j : Job) (s : S) → JobFits j → j.op ≡ 2 → job_of (chip.written (start j s)) ≡ j
  job_of-start j s fits e =
      job_of-latched j (chip.written (start j s)) (chip.written s) fits (λ i h. started j s i e h)

  -- Bit 4 of the engine's control register starts it.
  started-on : (j : Job) (s : S) → j.op ≡ 2 → chip.written (start j s) blt_ctrl0_reg / 16 % 2 ≡ 1
  unfolding lt7680_bte_on set_bits_u32
  started-on j s e =
      let t : S = writes bus (job_writes j) s in
      let r : ℕ × S = spi_read_register bus blt_ctrl0_reg t in
      let v : ℕ = bit_and r.0 4294967279 in
      let out : chip.written (start j s) blt_ctrl0_reg ≡ u8 (bit_or v 16) =
        ap (λ u. chip.written u blt_ctrl0_reg) (start_writes j s e)
        ∙ written-register bus chip blt_ctrl0_reg (bit_or v 16) blt_ctrl0_reg r.1 in
      omega (arith, out, bit_4 v)

  -- The wait ends at the first read of the status that has the core idle, and writes nothing.
  idle_wait_ends :
      (k fuel : ℕ) (s : S)
      → k < fuel
      → bit_and (status_at bus k s) 8 ≡ 0
      → (r : ℕ × S) × (lt7680_core_idle_wait bus fuel s ≡ some r)
        × (bit_and r.0 8 ≡ 0)
        × ((i : ℕ) → chip.written r.1 i ≡ chip.written s i)
  unfolding lt7680_core_idle_wait spi_status_read
  idle_wait_ends k zero s h e = absurd (omega arith)
  idle_wait_ends zero (suc fuel) s h e =
      ((frame bus 64 0 s), rw e refl, e, λ i. chip.written-status i s)
  idle_wait_ends (suc k) (suc fuel) s h e =
      let next : S = (frame bus 64 0 s).1 in
      let rest = idle_wait_ends k fuel next (omega arith) e in
      elim (Bool-cases (bit_and (frame bus 64 0 s).0 8 == 0)) [
        | inl idle ↦ (
          frame bus 64 0 s,
          rw idle refl,
          (==_iff (bit_and (frame bus 64 0 s).0 8) 0).0 idle,
          λ i. chip.written-status i s,
        )
        | inr busy ↦ (rest.0, rw busy rest.1, rest.2, λ i. rest.3 i ∙ chip.written-status i s)
      ]

  -- A copy whose places and sizes fit the registers returns, if each wait has fuel for one read of
  -- the status more than the core can stay busy: the registers of the engine describe exactly the
  -- copy, with raster operation `rop` and operation 2, and the bit that starts the engine was set.
  pub lt7680_bte_memory_copy-job :
      (j : Job) (s : S)
      → JobFits j
      → j.op ≡ 2
      → (t : S) × (lt7680_bte_memory_copy bus
            (suc chip.max_busy)
            j.dt.addr
            j.dt.width
            j.dt.x
            j.dt.y
            j.s0.addr
            j.s0.width
            j.s0.x
            j.s0.y
            j.s1.addr
            j.s1.width
            j.s1.x
            j.s1.y
            j.w
            j.h
            j.rop
            s
          ≡ some t)
        × (job_of (chip.written t) ≡ j)
        × (chip.written t blt_ctrl0_reg / 16 % 2 ≡ 1)
  unfolding lt7680_bte_memory_copy
  lt7680_bte_memory_copy-job j s fits e =
      let u : S = start j s in
      let idle = chip.idle_lem u in
      let waited = idle_wait_ends idle.0 (suc chip.max_busy) u (omega (arith, idle.1)) idle.2 in
      (
        waited.0.1,
        ap after waited.1,
        ap job_of (fun_ext waited.3) ∙ job_of-start j s fits e,
        ap (λ b. b / 16 % 2) (waited.3 blt_ctrl0_reg) ∙ started-on j s e,
      )
