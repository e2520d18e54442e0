-- ===== src/Graphics/Started.antt =====
-- What `lt7680_init` leaves in the registers.
use lcdpico_34401a.Common.{
  ℕ, zero, suc, ◌+◌, ◌-◌, ◌*◌, ◌/◌, ◌%◌, ◌<◌, ◌≤◌, ◌≡◌, refl, ap, ap₂, ◌∙◌, arith, true, false,
  Bool-cases, inl, inr, List, [], ◌∷◌, none, some, ◌==◌, bit_and,
}
use lcdpico_34401a.Graphics.Registers.{
  ccr_reg, pcsr_reg, mpwctr_reg, aw_color_reg, hdwr_reg, hdwrftr_reg, hndr_reg, hndrftr_reg,
  vhdr_reg, vndr_reg, vstr_reg, vpwr_reg,
}
use lcdpico_34401a.Graphics.Panel.{
  lcd_width, lcd_height, lcd_vbpd, lcd_vfpd, lcd_vspw, lcd_hbpd, lcd_hfpd, lcd_hspw,
}
use lcdpico_34401a.Graphics.Spi.{Bus, spi_status_read, spi_read_register, spi_write_register_u16}
use lcdpico_34401a.Graphics.Chip.{
  Chip, status_at, frame, latched, written-writes, written-register, written-reading,
}
use lcdpico_34401a.Graphics.Jobs.{word16}
use lcdpico_34401a.Graphics.Start.{
  in_eights, pll_wait, sdram_wait, init_pll, init_sdram, init_chip, init_panel, init_windows,
  lt7680_init,
}

-- What the configuration register reads in round `k` of the wait for the PLL.
abbrev pub pll_at : {S : Type 0} → Bus S → ℕ → S → ℕ
pll_at bus zero s = (spi_read_register bus ccr_reg s).0
pll_at bus (suc k) s =
    pll_at bus k (bus.sleep_ms 1000 (spi_status_read bus (spi_read_register bus ccr_reg s).1).1)

-- After a reset the PLL and the SDRAM become ready, within `max_rounds` rounds of the waits; no time
-- that passes writes a register.
pub record Starts {S : Type 0} (bus : Bus S) (chip : Chip bus) : Type 0 where
  pub max_rounds : ℕ
  pub written-sleep : (n i : ℕ) (s : S) → chip.written (bus.sleep_ms n s) i ≡ chip.written s i
  pub pll_lem : (s : S) → (k : ℕ) × (k ≤ max_rounds) × ((bit_and (pll_at bus k s) 128 == 0) ≡ false)
  pub sdram_lem :
      (s : S) → (k : ℕ) × (k ≤ max_rounds) × ((bit_and (status_at bus k s) 4 == 0) ≡ false)

abbrev panel_writes : List (ℕ × ℕ)
panel_writes =
    (20, lcd_width / 8 - 1)
    ∷ (21, lcd_width % 8)
    ∷ (26, lcd_height - 1)
    ∷ (27, (lcd_height - 1) / 256)
    ∷ (22, in_eights lcd_hbpd)
    ∷ (23, lcd_hbpd % 8)
    ∷ (24, in_eights lcd_hfpd)
    ∷ (25, in_eights lcd_hspw)
    ∷ (28, lcd_vbpd - 1)
    ∷ (29, (lcd_vbpd - 1) / 256)
    ∷ (30, lcd_vfpd - 1)
    ∷ (31, lcd_vspw - 1)
    ∷ []

module _ {S : Type 0} (bus : Bus S) (chip : Chip bus) (starts : Starts bus chip) where
  -- Nothing is written.
  abbrev Same : S → S → Type 0
  Same s t = (i : ℕ) → chip.written t i ≡ chip.written s i

  pll_wait_ends :
      (k fuel : ℕ) (s : S)
      → k < fuel
      → (bit_and (pll_at bus k s) 128 == 0) ≡ false
      → (t : S) × (pll_wait bus fuel s ≡ some t) × Same s t
  unfolding pll_wait spi_status_read
  pll_wait_ends k zero s h e = absurd (omega arith)
  pll_wait_ends zero (suc fuel) s h e =
      ((spi_read_register bus ccr_reg s).1, rw e refl, λ i. written-reading bus chip ccr_reg i s)
  pll_wait_ends (suc k) (suc fuel) s h e =
      let tmp : ℕ × S = spi_read_register bus ccr_reg s in
      let next : S = bus.sleep_ms 1000 (spi_status_read bus tmp.1).1 in
      let rest = pll_wait_ends k fuel next (omega arith) e in
      elim (Bool-cases (bit_and tmp.0 128 == 0)) [
        | inl busy ↦ (
          rest.0,
          rw busy rest.1,
          λ i.
              rest.2 i
              ∙ (starts.written-sleep 1000 i _
                  ∙ (chip.written-status i tmp.1 ∙ written-reading bus chip ccr_reg i s)),
        )
        | inr ready ↦ (tmp.1, rw ready refl, λ i. written-reading bus chip ccr_reg i s)
      ]

  sdram_wait_ends :
      (k fuel : ℕ) (s : S)
      → k < fuel
      → (bit_and (status_at bus k s) 4 == 0) ≡ false
      → (t : S) × (sdram_wait bus fuel s ≡ some t) × Same s t
  unfolding sdram_wait spi_status_read
  sdram_wait_ends k zero s h e = absurd (omega arith)
  sdram_wait_ends zero (suc fuel) s h e =
      ((frame bus 64 0 s).1, rw e refl, λ i. chip.written-status i s)
  sdram_wait_ends (suc k) (suc fuel) s h e =
      let next : S = (frame bus 64 0 s).1 in
      let rest = sdram_wait_ends k fuel next (omega arith) e in
      elim (Bool-cases (bit_and (frame bus 64 0 s).0 4 == 0)) [
        | inl busy ↦ (rest.0, rw busy rest.1, λ i. rest.2 i ∙ chip.written-status i s)
        | inr ready ↦ (next, rw ready refl, λ i. chip.written-status i s)
      ]

  -- The register of the panel's signals is not written.
  signals : S → ℕ
  signals s = chip.written s pcsr_reg

  signals-init_pll : (s : S) → signals (init_pll bus s) ≡ signals s
  unfolding signals init_pll
  signals-init_pll s =
      starts.written-sleep 10 pcsr_reg _
      ∙ written-writes bus chip ((5, _) ∷ (6, _) ∷ (7, _) ∷ (8, _) ∷ (9, _) ∷ (10, _) ∷ (0, _) ∷ [])
          s pcsr_reg

  signals-init_sdram : (s : S) → signals (init_sdram bus s) ≡ signals s
  unfolding signals init_sdram spi_write_register_u16
  signals-init_sdram s =
      written-writes bus chip ((224, _) ∷ (225, _) ∷ (226, _) ∷ (227, _) ∷ (228, _) ∷ []) s pcsr_reg

  signals-init_chip : (s : S) → signals (init_chip bus s) ≡ signals s
  unfolding signals init_chip
  signals-init_chip s =
      written-reading bus chip pcsr_reg pcsr_reg _
      ∙ (written-writes bus chip ((1, _) ∷ (2, _) ∷ (3, _) ∷ (18, _) ∷ [])
            (spi_read_register bus ccr_reg (bus.sleep_ms 10 s)).1 pcsr_reg
          ∙ (written-reading bus chip ccr_reg pcsr_reg _ ∙ starts.written-sleep 10 pcsr_reg s))

  -- A register's byte after the settings of the panel.
  written-panel :
      (i : ℕ) (s : S)
      → chip.written (init_panel bus s) i ≡ latched panel_writes (chip.written s i) i
  unfolding init_panel spi_write_register_u16
  written-panel i s = written-writes bus chip panel_writes s i

  written-windows :
      (i : ℕ) (s : S)
      → (mpwctr_reg == i) ≡ false
      → (aw_color_reg == i) ≡ false
      → chip.written (init_windows bus s) i ≡ chip.written s i
  unfolding init_windows
  written-windows i s h k =
      written-register bus chip aw_color_reg _ i _
      ∙ rw k (
          written-reading bus chip aw_color_reg i _
          ∙ (written-register bus chip mpwctr_reg _ i _
              ∙ rw h (written-reading bus chip mpwctr_reg i s)))

  init_runs :
      (fuel : ℕ) (s p q : S)
      → pll_wait bus fuel (init_pll bus s) ≡ some p
      → sdram_wait bus fuel (init_sdram bus p) ≡ some q
      → lt7680_init bus fuel s ≡ some (true, init_windows bus (init_panel bus (init_chip bus q)))
  unfolding lt7680_init
  init_runs fuel s p q h k =
      ap
        (λ o. elim o [
          | none ↦ none
          | some t ↦ elim (sdram_wait bus fuel (init_sdram bus t)) [
            | none ↦ none
            | some u ↦ some (true, init_windows bus (init_panel bus (init_chip bus u)))
          ]
        ])
        h
      ∙ ap
          (λ o. elim o [
            | none ↦ none
            | some u ↦ some (true, init_windows bus (init_panel bus (init_chip bus u)))
          ])
          k

  -- `lt7680_init` returns, if its waits have fuel for one round more than the PLL and the SDRAM take.
  -- The registers then have the panel's width and height, the porches of its lines and frames and
  -- the width of its frame pulse, in the units of the data sheet; the register of the polarity of the panel's
  -- signals was not written.
  pub lt7680_init-panel :
      (s : S)
      → (t : S) × (lt7680_init bus (suc starts.max_rounds) s ≡ some (true, t))
        × (let f : ℕ → ℕ = chip.written t in
            ((f hdwr_reg + 1) * 8 + f hdwrftr_reg ≡ lcd_width)
            × (word16 f vhdr_reg + 1 ≡ lcd_height)
            × ((f hndr_reg + 1) * 8 + f hndrftr_reg ≡ lcd_hbpd)
            × (word16 f vndr_reg + 1 ≡ lcd_vbpd)
            × (f vstr_reg + 1 ≡ lcd_vfpd)
            × (f vpwr_reg + 1 ≡ lcd_vspw)
            × (f pcsr_reg ≡ chip.written s pcsr_reg))
  unfolding signals
  lt7680_init-panel s =
      let a : S = init_pll bus s in
      let pll = starts.pll_lem a in
      let pll_done = pll_wait_ends pll.0 (suc starts.max_rounds) a (omega (arith, pll.1)) pll.2 in
      let b : S = init_sdram bus pll_done.0 in
      let sdram = starts.sdram_lem b in
      let sdram_done =
        sdram_wait_ends sdram.0 (suc starts.max_rounds) b (omega (arith, sdram.1)) sdram.2 in
      let c : S = init_chip bus sdram_done.0 in
      let t : S = init_windows bus (init_panel bus c) in
      let at = λ (i : ℕ) (h : (mpwctr_reg == i) ≡ false) (k : (aw_color_reg == i) ≡ false).
        written-windows i (init_panel bus c) h k ∙ written-panel i c in
      (
        t,
        init_runs (suc starts.max_rounds) s pll_done.0 sdram_done.0 pll_done.1 sdram_done.1,
        (
          ap₂ (λ x y. (x + 1) * 8 + y) (at hdwr_reg refl refl) (at hdwrftr_reg refl refl),
          ap₂ (λ x y. x + y * 256 + 1) (at 26 refl refl) (at 27 refl refl),
          ap₂ (λ x y. (x + 1) * 8 + y) (at hndr_reg refl refl) (at hndrftr_reg refl refl),
          ap₂ (λ x y. x + y * 256 + 1) (at 28 refl refl) (at 29 refl refl),
          ap (λ x. x + 1) (at vstr_reg refl refl),
          ap (λ x. x + 1) (at vpwr_reg refl refl),
          at pcsr_reg refl refl
              ∙ (signals-init_chip sdram_done.0
                  ∙ (sdram_done.2 pcsr_reg
                      ∙ (signals-init_sdram pll_done.0
                          ∙ (pll_done.2 pcsr_reg ∙ signals-init_pll s)))),
        ),
      )
