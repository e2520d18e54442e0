-- ===== src/Screen/Engine/Refinement.antt =====
-- `update_display` down to the registers of the LCD controller: its copies are the jobs that the
-- controller runs, in order, and then the address of the frame that it shows.
use lcdpico_34401a.Common.{
  ℕ, suc, ◌%◌, ◌<◌, ◌≡◌, refl, ap, ◌∙◌, arith, Bool, Bool-cases, inl, inr, List, [], ◌∷◌, Option,
  none, some, ◌==◌, bit_and, true, ◌++◌, map, sym,
}
use mathlib.Core.List.{append-nil, append_assoc}
use lcdpico_34401a.Screen.Cells.{Cell}
use lcdpico_34401a.Screen.Refresh.{Copy, frame_of}
use lcdpico_34401a.Screen.Update.{Lcd, Call, update_copies}
use lcdpico_34401a.Screen.Engine.{CopyFits, AllFit}
use lcdpico_34401a.Screen.Engine.Whole.{frame-fits, update_copies-AllFit}
use lcdpico_34401a.Graphics.Registers.{misa_reg}
use lcdpico_34401a.Graphics.Panel.{lcd_width}
use lcdpico_34401a.Graphics.Spi.{Bus, spi_write_register_u32}
use lcdpico_34401a.Graphics.Chip.{Chip, written-writes}
use lcdpico_34401a.Graphics.Settings.{lt7680_set_misa_addr}
use lcdpico_34401a.Graphics.Engine.{lt7680_bte_memory_copy}
use lcdpico_34401a.Graphics.Jobs.{Job, JobFits, job_of, word32, word32-eq, u32_writes}
use lcdpico_34401a.Graphics.Copies.{lt7680_bte_memory_copy-job}
use lcdpico_34401a.Graphics.Runs.{JobEngine, jobs-writes, lt7680_bte_memory_copy-runs}

-- The width of the image at an address.
abbrev pub Widths : Type 0
Widths = ℕ → ℕ

-- The job of a copy: the raster operation 10 takes the second source.
abbrev pub job_of_copy : Widths → Copy → Job
job_of_copy widths k = record {
  dt = record { addr = k.fb; width = lcd_width; x = k.x; y = k.y };
  s0 = record { addr = 0; width = 0; x = 0; y = 0 };
  s1 = record { addr = k.image; width = widths k.image; x = k.tile_x; y = k.tile_y };
  w = k.w;
  h = k.h;
  rop = 10;
  op = 2;
}

job_of_copy-JobFits :
    (widths : Widths) (k : Copy)
    → ((a : ℕ) → (widths a < 8192) × (widths a % 4 ≡ 0))
    → CopyFits k
    → JobFits (job_of_copy widths k)
job_of_copy-JobFits widths k hw fits = record {
  dt_fits = record {
    addr_fits = fits.fb_fits;
    width_fits = omega arith;
    width_even = refl;
    x_fits = fits.x_fits;
    y_fits = fits.y_fits;
  };
  s0_fits = record {
    addr_fits = omega arith;
    width_fits = omega arith;
    width_even = refl;
    x_fits = omega arith;
    y_fits = omega arith;
  };
  s1_fits = record {
    addr_fits = fits.image_fits;
    width_fits = (hw k.image).0;
    width_even = (hw k.image).1;
    x_fits = fits.tile_x_fits;
    y_fits = fits.tile_y_fits;
  };
  w_fits = fits.w_fits;
  h_fits = fits.h_fits;
  rop_fits = omega arith;
  op_fits = omega arith;
}

frame_aligned : (state : ℕ) → bit_and (frame_of state) 4294967292 ≡ frame_of state
frame_aligned state = elim (Bool-cases (state == 0)) [ inl e ↦ rw e refl | inr e ↦ rw e refl ]

module _ {S : Type 0} (bus : Bus S) where
  -- The calls of the loops of `update_display`, each with the same fuel.
  unfoldable pub issue : ℕ → Widths → Copy → S → Option S
  issue fuel widths k s =
      lt7680_bte_memory_copy bus fuel k.fb lcd_width k.x k.y 0 0 0 0 k.image (widths k.image)
        k.tile_x k.tile_y k.w k.h 10 s

  unfoldable pub issue_all : ℕ → Widths → List Copy → S → Option S
  issue_all fuel widths [] s = some s
  issue_all fuel widths (k ∷ ks) s = elim (issue fuel widths k s) [
    | none ↦ none
    | some t ↦ issue_all fuel widths ks t
  ]

  -- All the calls of `update_display`: the copies, and the switch to the frame.
  unfoldable pub drive : ℕ → Widths → List Copy → ℕ → S → Option S
  drive fuel widths ks fb s = elim (issue_all fuel widths ks s) [
    | none ↦ none
    | some t ↦ some (lt7680_set_misa_addr bus fb t)
  ]

  module _ (chip : Chip bus) where
    -- Each copy's call returned, and when it did the registers described exactly its job.
    pub data Ran (fuel : ℕ) (widths : Widths) : List Copy → S → S → Type 0 where
      done : {s : S} → Ran fuel widths [] s s
      next :
          {k : Copy} {ks : List Copy} {s t u : S}
          → issue fuel widths k s ≡ some t
          → job_of (chip.written t) ≡ job_of_copy widths k
          → Ran fuel widths ks t u
          → Ran fuel widths (k ∷ ks) s u

    issue_all-step :
        (fuel : ℕ) (widths : Widths) (k : Copy) (ks : List Copy) (s t u : S)
        → issue fuel widths k s ≡ some t
        → issue_all fuel widths ks t ≡ some u
        → issue_all fuel widths (k ∷ ks) s ≡ some u
    unfolding issue_all
    issue_all-step fuel widths k ks s t u h g =
        ap (λ o. elim o [ none ↦ none | some v ↦ issue_all fuel widths ks v ]) h ∙ g

    misa-frame :
        (state : ℕ) (s : S)
        → word32 (chip.written (lt7680_set_misa_addr bus (frame_of state) s)) misa_reg
          ≡ frame_of state
    unfolding lt7680_set_misa_addr spi_write_register_u32
    misa-frame state s =
        let v : ℕ = bit_and (frame_of state) 4294967292 in
        let held = λ (i : ℕ). written-writes bus chip (u32_writes misa_reg v) s i in
        let aligned : v ≡ frame_of state = frame_aligned state in
        word32-eq (chip.written (lt7680_set_misa_addr bus (frame_of state) s)) misa_reg v
          (rw aligned (frame-fits state)) (held 32) (held 33) (held 34) (held 35)
        ∙ aligned

    module _ (engine : JobEngine bus chip) where
      issue-job :
          (widths : Widths) (k : Copy) (s : S)
          → ((a : ℕ) → (widths a < 8192) × (widths a % 4 ≡ 0))
          → CopyFits k
          → (engine.jobs s).1 ≡ true
          → (t : S) × (issue (suc chip.max_busy) widths k s ≡ some t)
            × (job_of (chip.written t) ≡ job_of_copy widths k)
            × ((engine.jobs t).0 ≡ (engine.jobs s).0 ++ (job_of_copy widths k ∷ []))
            × ((engine.jobs t).1 ≡ true)
      unfolding issue
      issue-job widths k s hw fits idle =
          let j : Job = job_of_copy widths k in
          let takes : JobFits j = job_of_copy-JobFits widths k hw fits in
          let run = lt7680_bte_memory_copy-job bus chip j s takes refl in
          let ran = lt7680_bte_memory_copy-runs bus chip engine j s run.0 takes refl idle run.1 in
          (run.0, run.1, run.2, ran.0, ran.1)

      issue_all-Ran :
          (widths : Widths) (ks : List Copy) (s : S)
          → ((a : ℕ) → (widths a < 8192) × (widths a % 4 ≡ 0))
          → AllFit ks
          → (engine.jobs s).1 ≡ true
          → (t : S) × (issue_all (suc chip.max_busy) widths ks s ≡ some t)
            × Ran (suc chip.max_busy) widths ks s t
            × ((engine.jobs t).0 ≡ (engine.jobs s).0 ++ map (job_of_copy widths) ks)
      unfolding issue_all
      issue_all-Ran widths [] s hw h idle = (s, refl, done, sym (append-nil (engine.jobs s).0))
      issue_all-Ran widths (k ∷ ks) s hw (fits, more) idle =
          let run = issue-job widths k s hw fits idle in
          let rest = issue_all-Ran widths ks run.0 hw more run.4 in
          let js : List Job = map (job_of_copy widths) ks in
          (
            rest.0,
            issue_all-step (suc chip.max_busy) widths k ks s run.0 rest.0 run.1 rest.1,
            next run.1 run.2 rest.2,
            rest.3
                ∙ (ap (λ ran. ran ++ js) run.3
                    ∙ append_assoc (engine.jobs s).0 (job_of_copy widths k ∷ []) js),
          )

      jobs-misa :
          (state : ℕ) (s : S)
          → engine.jobs (lt7680_set_misa_addr bus (frame_of state) s) ≡ engine.jobs s
      unfolding lt7680_set_misa_addr spi_write_register_u32
      jobs-misa state s =
          jobs-writes bus chip engine (u32_writes misa_reg (bit_and (frame_of state) 4294967292)) s
            refl

      -- The calls of one `update_display` return, if each wait has fuel for one read of the status
      -- more than the core can stay busy, on a controller whose engine is idle: the engine has been
      -- started for the jobs of the copies, in order and only for them, each with exactly the
      -- addresses, places and sizes of the copy and on an idle engine, and the controller shows the
      -- frame that was drawn. The images lie in 32 bits, and their widths are multiples of four
      -- below 8192.
      pub drive-Ran :
          (call : Call) (force : Bool) (new : List Cell) (ind : ℕ) (l : Lcd) (widths : Widths)
          (s : S)
          → call.characters < 4294967296
          → call.lights < 4294967296
          → ((a : ℕ) → (widths a < 8192) × (widths a % 4 ≡ 0))
          → (engine.jobs s).1 ≡ true
          → let ks : List Copy = update_copies call force new ind l in
            let fuel : ℕ = suc chip.max_busy in
            (t : S) × (u : S) × Ran fuel widths ks s t
            × (drive fuel widths ks (frame_of l.state) s ≡ some u)
            × ((engine.jobs u).0 ≡ (engine.jobs s).0 ++ map (job_of_copy widths) ks)
            × (word32 (chip.written u) misa_reg ≡ frame_of l.state)
      unfolding drive
      drive-Ran call force new ind l widths s hc hl hw idle =
          let ks : List Copy = update_copies call force new ind l in
          let fit = update_copies-AllFit call force new ind l hc hl in
          let run = issue_all-Ran widths ks s hw fit idle in
          (
            run.0,
            lt7680_set_misa_addr bus (frame_of l.state) run.0,
            run.2,
            ap
                (λ o. elim o [
                  | none ↦ none
                  | some t ↦ some (lt7680_set_misa_addr bus (frame_of l.state) t)
                ])
                run.1,
            ap (λ x. x.0) (jobs-misa l.state run.0) ∙ run.3,
            misa-frame l.state run.0,
          )
