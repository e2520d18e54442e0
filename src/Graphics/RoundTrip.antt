-- ===== src/Graphics/RoundTrip.antt =====
-- Registers that are written and read back, and colours in the registers of src/lt7680.c.
use lcdpico_34401a.Common.{
  ℕ, ◌+◌, ◌*◌, ◌/◌, ◌%◌, ◌^◌, ◌<◌, ◌≡◌, refl, ap, ◌∙◌, arith, true, [], ◌∷◌, u8, bit_or, or_high,
}
use lcdpico_34401a.Graphics.Registers.{fgcr_reg, fgcg_reg, fgcb_reg, bgcr_reg, bgcg_reg, bgcb_reg}
use lcdpico_34401a.Graphics.Spi.{
  Bus, spi_read_register, spi_read_register_u16, spi_read_register_u32, spi_write_register_u16,
  spi_write_register_u32,
}
use lcdpico_34401a.Graphics.Chip.{
  Chip, writes, latched, written-writes, written-reading, reading_lem,
}
use lcdpico_34401a.Graphics.Jobs.{u16_writes, u32_writes}
use lcdpico_34401a.Graphics.Settings.{lt7680_set_fg_16bpp, lt7680_set_bg_16bpp}

-- Four bytes as a word, put together by shifts.
or_bytes :
    (a b c d : ℕ)
    → b < 256
    → c < 256
    → d < 256
    → bit_or (bit_or (bit_or (a * 2 ^ 24) (b * 2 ^ 16)) (c * 2 ^ 8)) d
      ≡ ((a * 256 + b) * 256 + c) * 256 + d
or_bytes a b c d hb hc hd =
    let one : bit_or (a * 2 ^ 24) (b * 2 ^ 16) ≡ (a * 256 + b) * 2 ^ 16 =
      omega (arith, or_high 24 a (b * 2 ^ 16) (omega arith)) in
    let two : bit_or ((a * 256 + b) * 2 ^ 16) (c * 2 ^ 8) ≡ ((a * 256 + b) * 256 + c) * 2 ^ 8 =
      omega (arith, or_high 16 (a * 256 + b) (c * 2 ^ 8) (omega arith)) in
    rw (one, two) (omega (arith, or_high 8 ((a * 256 + b) * 256 + c) d hd))

-- What a write of four registers leaves in each.
latched_u32 :
    (r v old : ℕ)
    → r + 3 < 256
    → (latched (u32_writes r v) old r ≡ u8 v)
      × (latched (u32_writes r v) old (r + 1) ≡ u8 (v / 256))
      × (latched (u32_writes r v) old (r + 2) ≡ u8 (v / 65536))
      × (latched (u32_writes r v) old (r + 3) ≡ u8 (v / 16777216))
latched_u32 r v old h = (ground arith, ground arith, ground arith, ground arith)

latched_u16 :
    (r v old : ℕ)
    → r + 1 < 256
    → (latched (u16_writes r v) old r ≡ u8 v)
      × (latched (u16_writes r v) old (r + 1) ≡ u8 (v / 256))
latched_u16 r v old h = (ground arith, ground arith)

module _ {S : Type 0} (bus : Bus S) (chip : Chip bus) where
  -- A reading in a state in which nothing was written since `s`.
  reading_since :
      (q r v : ℕ) (s t : S)
      → u8 q ≡ r
      → chip.stores r ≡ true
      → chip.written s r ≡ u8 v
      → ((i : ℕ) → chip.written t i ≡ chip.written s i)
      → ((spi_read_register bus q t).0 ≡ u8 v)
        × ((i : ℕ) → chip.written (spi_read_register bus q t).1 i ≡ chip.written s i)
  reading_since q r v s t e h known same = (
    reading_lem bus chip q t (rw e h) ∙ (ap (chip.written t) e ∙ (same r ∙ known)),
    λ i. written-reading bus chip q i t ∙ same i,
  )

  -- The words are read back, where the registers can be.
  read_u32-write :
      (r v : ℕ) (s : S)
      → r + 3 < 256
      → chip.stores r ≡ true
      → chip.stores (r + 1) ≡ true
      → chip.stores (r + 2) ≡ true
      → chip.stores (r + 3) ≡ true
      → (spi_read_register_u32 bus r (spi_write_register_u32 bus r v s)).0 ≡ v % 4294967296
  unfolding spi_read_register_u32 spi_write_register_u32
  read_u32-write r v s h s0 s1 s2 s3 =
      let w : S = writes bus (u32_writes r v) s in
      let held = λ (i : ℕ). written-writes bus chip (u32_writes r v) s i in
      let r1 =
        reading_since r r v w w (omega arith) s0 (held r ∙ (latched_u32 r v (chip.written s r) h).0)
          (λ i. refl) in
      let t1 : S = (spi_read_register bus r w).1 in
      let r2 =
        reading_since (u8 (r + 1)) (r + 1) (v / 256) w t1 (omega arith) s1
          (held (r + 1) ∙ (latched_u32 r v (chip.written s (r + 1)) h).1) r1.1 in
      let t2 : S = (spi_read_register bus (u8 (r + 1)) t1).1 in
      let r3 =
        reading_since (u8 (r + 2)) (r + 2) (v / 65536) w t2 (omega arith) s2
          (held (r + 2) ∙ (latched_u32 r v (chip.written s (r + 2)) h).2) r2.1 in
      let t3 : S = (spi_read_register bus (u8 (r + 2)) t2).1 in
      let r4 =
        reading_since (u8 (r + 3)) (r + 3) (v / 16777216) w t3 (omega arith) s3
          (held (r + 3) ∙ (latched_u32 r v (chip.written s (r + 3)) h).3) r3.1 in
      rw (r1.0, r2.0, r3.0, r4.0)
        (or_bytes (u8 (u8 (v / 16777216))) (u8 (u8 (v / 65536))) (u8 (u8 (v / 256))) (u8 (u8 v))
            (omega arith) (omega arith) (omega arith)
          ∙ omega arith)

  read_u16-write :
      (r v : ℕ) (s : S)
      → r + 1 < 256
      → chip.stores r ≡ true
      → chip.stores (r + 1) ≡ true
      → (spi_read_register_u16 bus r (spi_write_register_u16 bus r v s)).0 ≡ v % 65536
  unfolding spi_read_register_u16 spi_write_register_u16
  read_u16-write r v s h s0 s1 =
      let w : S = writes bus (u16_writes r v) s in
      let held = λ (i : ℕ). written-writes bus chip (u16_writes r v) s i in
      let r1 =
        reading_since r r v w w (omega arith) s0 (held r ∙ (latched_u16 r v (chip.written s r) h).0)
          (λ i. refl) in
      let r2 =
        reading_since (u8 (r + 1)) (r + 1) (v / 256) w (spi_read_register bus r w).1 (omega arith)
          s1 (held (r + 1) ∙ (latched_u16 r v (chip.written s (r + 1)) h).1) r1.1 in
      rw (r1.0, r2.0) (or_high 8 (u8 (u8 (v / 256))) (u8 (u8 v)) (omega arith) ∙ omega arith)

  -- What is written to registers that read back what was written is read back: a word of four
  -- registers as far as 32 bits hold it, and a word of two as far as 16 bits do.
  pub read_register-write :
      (r v : ℕ) (s : S)
      → r + 3 < 256
      → chip.stores r ≡ true
      → chip.stores (r + 1) ≡ true
      → chip.stores (r + 2) ≡ true
      → chip.stores (r + 3) ≡ true
      → ((spi_read_register_u32 bus r (spi_write_register_u32 bus r v s)).0 ≡ v % 4294967296)
        × ((spi_read_register_u16 bus r (spi_write_register_u16 bus r v s)).0 ≡ v % 65536)
  read_register-write r v s h s0 s1 s2 s3 =
      (read_u32-write r v s h s0 s1 s2 s3, read_u16-write r v s (omega arith) s0 s1)

  -- A colour of 16 bits reaches the registers of the foreground and of the background with its
  -- five bits of red, six of green and five of blue as the leading bits of their bytes.
  pub set_colours_lem :
      (color : ℕ) (s : S)
      → color < 65536
      → let fg : ℕ → ℕ = chip.written (lt7680_set_fg_16bpp bus color s) in
        let bg : ℕ → ℕ = chip.written (lt7680_set_bg_16bpp bus color s) in
        (fg fgcr_reg / 8 ≡ color / 2048)
        × (fg fgcg_reg / 4 ≡ color / 32 % 64)
        × (fg fgcb_reg / 8 ≡ color % 32)
        × (bg bgcr_reg / 8 ≡ color / 2048)
        × (bg bgcg_reg / 4 ≡ color / 32 % 64)
        × (bg bgcb_reg / 8 ≡ color % 32)
  unfolding lt7680_set_fg_16bpp lt7680_set_bg_16bpp
  set_colours_lem color s h =
      let fg = λ (i : ℕ).
        written-writes bus chip
          ((fgcr_reg, color / 256) ∷ (fgcg_reg, color / 8) ∷ (fgcb_reg, color * 8) ∷ []) s i in
      let bg = λ (i : ℕ).
        written-writes bus chip
          ((bgcr_reg, color / 256) ∷ (bgcg_reg, color / 8) ∷ (bgcb_reg, color * 8) ∷ []) s i in
      (
        omega (arith, fg fgcr_reg),
        omega (arith, fg fgcg_reg),
        omega (arith, fg fgcb_reg),
        omega (arith, bg bgcr_reg),
        omega (arith, bg bgcg_reg),
        omega (arith, bg bgcb_reg),
      )
