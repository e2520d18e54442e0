-- ===== src/Graphics/Runs.antt =====
-- When the block transfer engine runs a job, and that `lt7680_bte_memory_copy` has it run one.
use lcdpico_34401a.Common.{
  ℕ, zero, suc, ◌/◌, ◌%◌, ◌≡◌, refl, ap, ap₂, ◌∙◌, arith, Bool, true, false, not, ◌&&◌, Bool-cases,
  inl, inr, ==_iff, List, [], ◌∷◌, ◌++◌, all, some, ◌==◌, u8, bit_and, bit_or,
}
use mathlib.Core.Path.{fun_ext, subst}
use mathlib.Core.Option.{some-injective}
use lcdpico_34401a.Graphics.Registers.{blt_ctrl0_reg}
use lcdpico_34401a.Graphics.Spi.{
  Bus, spi_cmd_write, spi_data_write, spi_data_read, spi_read_register, spi_write_register,
  spi_status_read,
}
use lcdpico_34401a.Graphics.Chip.{
  Chip, frame, writes, chosen-cmd, written-cmd, written-reading, written-writes,
}
use lcdpico_34401a.Graphics.Status.{after, lt7680_core_idle_wait}
use lcdpico_34401a.Graphics.Engine.{set_bits_u32, lt7680_bte_on, lt7680_bte_memory_copy}
use lcdpico_34401a.Graphics.Jobs.{Job, JobFits, job_of}
use lcdpico_34401a.Graphics.Copies.{bit_4, job_writes, start, start_writes, job_of-latched}

-- Whether a byte that is written to the chosen register starts the engine.
abbrev pub is_start : ℕ → ℕ → Bool
is_start chosen d = chosen == blt_ctrl0_reg && d / 16 % 2 == 1

-- The engine by the data sheet: `jobs` is what it has run, in order, and whether no job has been
-- started since the status last read as idle. Only then does a start have it run the job that the
-- registers describe. Nothing else starts a job.
pub record JobEngine {S : Type 0} (bus : Bus S) (chip : Chip bus) : Type 0 where
  pub jobs : S → List Job × Bool
  pub jobs-command : (r : ℕ) (s : S) → jobs (frame bus 0 r s).1 ≡ jobs s
  pub jobs-read : (s : S) → jobs (frame bus 192 0 s).1 ≡ jobs s
  pub jobs-data :
      (d : ℕ) (s : S) → is_start (chip.chosen s) d ≡ false → jobs (frame bus 128 d s).1 ≡ jobs s
  pub jobs-start :
      (d : ℕ) (s : S)
      → is_start (chip.chosen s) d ≡ true
      → (jobs s).1 ≡ true
      → (jobs (frame bus 128 d s).1).0 ≡ (jobs s).0 ++ (job_of (chip.written s) ∷ [])
  pub jobs-status : (s : S) → (jobs (frame bus 64 0 s).1).0 ≡ (jobs s).0
  pub jobs-idle :
      (s : S) → bit_and (frame bus 64 0 s).0 8 ≡ 0 → (jobs (frame bus 64 0 s).1).1 ≡ true

start_bit : (v : ℕ) → (u8 (bit_or v 16) / 16 % 2 == 1) ≡ true
start_bit v = let bit : u8 (bit_or v 16) / 16 % 2 ≡ 1 = omega (arith, bit_4 v) in rw bit refl

module _ {S : Type 0} (bus : Bus S) (chip : Chip bus) (engine : JobEngine bus chip) where
  jobs-cmd : (r : ℕ) (s : S) → engine.jobs (spi_cmd_write bus r s) ≡ engine.jobs s
  unfolding spi_cmd_write
  jobs-cmd r s = engine.jobs-command (u8 r) s

  jobs-reading : (r : ℕ) (s : S) → engine.jobs (spi_read_register bus r s).1 ≡ engine.jobs s
  unfolding spi_read_register spi_data_read
  jobs-reading r s = engine.jobs-read (spi_cmd_write bus r s) ∙ jobs-cmd r s

  -- A write to another register starts nothing.
  jobs-other :
      (r v : ℕ) (s : S)
      → (u8 r == blt_ctrl0_reg) ≡ false
      → engine.jobs (spi_write_register bus r v s) ≡ engine.jobs s
  unfolding spi_write_register spi_data_write
  jobs-other r v s h =
      engine.jobs-data (u8 v) (spi_cmd_write bus r s) (rw (chosen-cmd bus chip r s, h) refl)
      ∙ jobs-cmd r s

  -- No register but the engine's control register starts anything.
  abbrev is_other : ℕ × ℕ → Bool
  is_other w = not (u8 w.0 == blt_ctrl0_reg)

  pub jobs-writes :
      (ws : List (ℕ × ℕ)) (s : S)
      → all is_other ws ≡ true
      → engine.jobs (writes bus ws s) ≡ engine.jobs s
  jobs-writes [] s h = refl
  jobs-writes (w ∷ ws) s h = elim (Bool-cases (u8 w.0 == blt_ctrl0_reg)) [
    | inl e ↦ absurd (ground (arith, h, e))
    | inr e ↦ jobs-writes ws (spi_write_register bus w.0 w.1 s) (rw e at h) ∙ jobs-other w.0 w.1 s e
  ]

  -- The start has the engine run the job that the registers describe.
  jobs-bte_on :
      (s : S)
      → (engine.jobs s).1 ≡ true
      → (engine.jobs (lt7680_bte_on bus true s)).0
        ≡ (engine.jobs s).0 ++ (job_of (chip.written s) ∷ [])
  unfolding lt7680_bte_on set_bits_u32 spi_write_register spi_data_write
  jobs-bte_on s h =
      let r : ℕ × S = spi_read_register bus blt_ctrl0_reg s in
      let t : S = spi_cmd_write bus blt_ctrl0_reg r.1 in
      let v : ℕ = bit_and r.0 4294967279 in
      let same : engine.jobs t ≡ engine.jobs s =
        jobs-cmd blt_ctrl0_reg r.1 ∙ jobs-reading blt_ctrl0_reg s in
      let kept : chip.written t ≡ chip.written s = fun_ext (λ i.
        written-cmd bus chip blt_ctrl0_reg i r.1 ∙ written-reading bus chip blt_ctrl0_reg i s) in
      let chosen : chip.chosen t ≡ blt_ctrl0_reg = chosen-cmd bus chip blt_ctrl0_reg r.1 in
      engine.jobs-start (u8 (bit_or v 16)) t (rw (chosen, start_bit v) refl)
        (ap (λ x. x.1) same ∙ h)
      ∙ ap₂ (λ (x : List Job × Bool) (f : ℕ → ℕ). x.0 ++ (job_of f ∷ [])) same kept

  -- The wait starts nothing, and ends with the engine idle.
  idle_wait-jobs :
      (fuel : ℕ) (s t : S)
      → after (lt7680_core_idle_wait bus fuel s) ≡ some t
      → ((engine.jobs t).0 ≡ (engine.jobs s).0) × ((engine.jobs t).1 ≡ true)
  unfolding lt7680_core_idle_wait spi_status_read
  idle_wait-jobs zero s t h = absurd (cc h)
  idle_wait-jobs (suc fuel) s t h =
      let next : S = (frame bus 64 0 s).1 in
      elim (Bool-cases (bit_and (frame bus 64 0 s).0 8 == 0)) [
        | inl idle ↦
            let at : next ≡ t = some-injective next t (rw idle at h) in
            let quiet = (==_iff (bit_and (frame bus 64 0 s).0 8) 0).0 idle in
            subst (λ u. ((engine.jobs u).0 ≡ (engine.jobs s).0) × ((engine.jobs u).1 ≡ true)) at
              (engine.jobs-status s, engine.jobs-idle s quiet)
        | inr busy ↦
            let rest = idle_wait-jobs fuel next t (rw busy at h) in
            (rest.0 ∙ engine.jobs-status s, rest.1)
      ]

  -- A copy on an idle engine has run exactly its job when it returns, and the engine is idle.
  pub lt7680_bte_memory_copy-runs :
      (j : Job) (s t : S)
      → JobFits j
      → j.op ≡ 2
      → (engine.jobs s).1 ≡ true
      → lt7680_bte_memory_copy bus
          (suc chip.max_busy)
          j.dt.addr
          j.dt.width
          j.dt.x
          j.dt.y
          j.s0.addr
          j.s0.width
          j.s0.x
          j.s0.y
          j.s1.addr
          j.s1.width
          j.s1.x
          j.s1.y
          j.w
          j.h
          j.rop
          s
        ≡ some t
      → ((engine.jobs t).0 ≡ (engine.jobs s).0 ++ (j ∷ [])) × ((engine.jobs t).1 ≡ true)
  unfolding lt7680_bte_memory_copy
  lt7680_bte_memory_copy-runs j s t fits e idle h =
      let waited = idle_wait-jobs (suc chip.max_busy) (start bus chip j s) t h in
      let set : S = writes bus (job_writes bus chip j) s in
      let same : engine.jobs set ≡ engine.jobs s = jobs-writes (job_writes bus chip j) s refl in
      let described : job_of (chip.written set) ≡ j =
        job_of-latched bus chip j (chip.written set) (chip.written s) fits
          (λ i g. written-writes bus chip (job_writes bus chip j) s i) in
      let began = jobs-bte_on set (ap (λ x. x.1) same ∙ idle) in
      (
        waited.0
            ∙ (ap (λ u. (engine.jobs u).0) (start_writes bus chip j s e)
                ∙ (began ∙ ap₂ (λ (x : List Job × Bool) k. x.0 ++ (k ∷ [])) same described)),
        waited.1,
      )
