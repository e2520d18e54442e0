-- ===== src/Graphics/Jobs.antt =====
-- The registers of the block transfer engine, read as the job that they describe.
use lcdpico_34401a.Common.{
  ℕ, ◌+◌, ◌*◌, ◌/◌, ◌%◌, ◌^◌, ◌<◌, ◌≡◌, ap, ◌∙◌, arith, List, [], ◌∷◌, u8, bit_and, bit_or, or_high,
  and_ones, and_fields,
}
use lcdpico_34401a.Graphics.Registers.{
  blt_ctrl1_reg, s0_str_reg, s0_wth_reg, s0_x_reg, s0_y_reg, s1_str_reg, s1_wth_reg, s1_x_reg,
  s1_y_reg, dt_str_reg, dt_wth_reg, dt_x_reg, dt_y_reg, blt_wth_reg, blt_hig_reg,
}

-- The words that two and four registers hold, the lowest byte first.
abbrev pub word16 : (ℕ → ℕ) → ℕ → ℕ
word16 f r = f r + f (r + 1) * 256

abbrev pub word32 : (ℕ → ℕ) → ℕ → ℕ
word32 f r = f r + f (r + 1) * 256 + f (r + 2) * 65536 + f (r + 3) * 16777216

pub word16-eq :
    (f : ℕ → ℕ) (r v w : ℕ)
    → v ≡ w
    → w < 65536
    → f r ≡ u8 v
    → f (r + 1) ≡ u8 (v / 256)
    → word16 f r ≡ w
word16-eq f r v w e h a b = omega arith

pub word32-eq :
    (f : ℕ → ℕ) (r v : ℕ)
    → v < 4294967296
    → f r ≡ u8 v
    → f (r + 1) ≡ u8 (v / 256)
    → f (r + 2) ≡ u8 (v / 65536)
    → f (r + 3) ≡ u8 (v / 16777216)
    → word32 f r ≡ v
word32-eq f r v h a b c d = omega arith

-- An image in video memory, and a place in it.
pub record Place : Type 0 where
  pub addr : ℕ
  pub width : ℕ
  pub x : ℕ
  pub y : ℕ

-- What the engine is to do: a raster operation on a rectangle of three images.
pub record Job : Type 0 where
  pub dt : Place
  pub s0 : Place
  pub s1 : Place
  pub w : ℕ
  pub h : ℕ
  pub rop : ℕ
  pub op : ℕ

-- The job that the registers describe.
abbrev pub place_of : (ℕ → ℕ) → ℕ → ℕ → ℕ → ℕ → Place
place_of f str wth rx ry = record {
  addr = word32 f str;
  width = word16 f wth;
  x = word16 f rx;
  y = word16 f ry;
}

abbrev pub job_of : (ℕ → ℕ) → Job
job_of f = record {
  dt = place_of f dt_str_reg dt_wth_reg dt_x_reg dt_y_reg;
  s0 = place_of f s0_str_reg s0_wth_reg s0_x_reg s0_y_reg;
  s1 = place_of f s1_str_reg s1_wth_reg s1_x_reg s1_y_reg;
  w = word16 f blt_wth_reg;
  h = word16 f blt_hig_reg;
  rop = f blt_ctrl1_reg / 16;
  op = f blt_ctrl1_reg % 16;
}

-- The limits of the registers: 32 bits for an address, 13 bits for a coordinate, and widths that are
-- multiples of four.
pub record Fits (p : Place) : Type 0 where
  pub addr_fits : p.addr < 4294967296
  pub width_fits : p.width < 8192
  pub width_even : p.width % 4 ≡ 0
  pub x_fits : p.x < 8192
  pub y_fits : p.y < 8192

pub low13 : (x : ℕ) → x < 8192 → bit_and x 8191 ≡ x
low13 x h = and_ones 13 x h

pub width13 : (x : ℕ) → x < 8192 → x % 4 ≡ 0 → bit_and x 8188 ≡ x
width13 x h e =
    let split : x ≡ x / 4 * 2 ^ 2 + 0 = omega arith in
    ap (λ t. bit_and t 8188) split
    ∙ omega (
      arith,
      and_fields 2 (x / 4) 2047 0 0 (omega arith) (omega arith),
      and_ones 11 (x / 4) (omega arith),
    )

abbrev pub u16_writes : ℕ → ℕ → List (ℕ × ℕ)
u16_writes r v = (r, v) ∷ (r + 1, v / 256) ∷ []

abbrev pub u32_writes : ℕ → ℕ → List (ℕ × ℕ)
u32_writes r v = (r, v) ∷ (r + 1, v / 256) ∷ (r + 2, v / 65536) ∷ (r + 3, v / 16777216) ∷ []

-- The registers hold what is listed.
abbrev pub Hold : (ℕ → ℕ) → List (ℕ × ℕ) → Type 0
Hold f [] = Unit
Hold f (w ∷ ws) = (f w.0 ≡ u8 w.1) × Hold f ws

pub Place-eq : (p q : Place) → p.addr ≡ q.addr → p.width ≡ q.width → p.x ≡ q.x → p.y ≡ q.y → p ≡ q
Place-eq p q a w x y = λ i. record { addr = a i; width = w i; x = x i; y = y i }

pub Job-eq :
    (j k : Job)
    → j.dt ≡ k.dt
    → j.s0 ≡ k.s0
    → j.s1 ≡ k.s1
    → (j.w ≡ k.w) × (j.h ≡ k.h)
    → (j.rop ≡ k.rop) × (j.op ≡ k.op)
    → j ≡ k
Job-eq j k d s t (w, h) (r, o) =
    λ i. record { dt = d i; s0 = s i; s1 = t i; w = w i; h = h i; rop = r i; op = o i }

pub below13 : {n : ℕ} → n < 8192 → n < 65536
below13 h = omega arith

pub place_of-eq :
    (f : ℕ → ℕ) (str wth rx ry : ℕ) (p : Place)
    → Fits p
    → Hold f (u32_writes str p.addr)
    → Hold f (u16_writes wth (bit_and p.width 8188))
    → Hold f (u16_writes rx (bit_and p.x 8191))
    → Hold f (u16_writes ry (bit_and p.y 8191))
    → place_of f str wth rx ry ≡ p
place_of-eq f str wth rx ry p fits (a0, (a1, (a2, (a3, none_left)))) (w0, (w1, done))
      (x0, (x1, ended)) (y0, (y1, over)) =
    Place-eq (place_of f str wth rx ry) p (word32-eq f str p.addr fits.addr_fits a0 a1 a2 a3)
      (word16-eq f wth (bit_and p.width 8188) p.width
        (width13 p.width fits.width_fits fits.width_even) (below13 fits.width_fits) w0 w1)
      (word16-eq f rx (bit_and p.x 8191) p.x (low13 p.x fits.x_fits) (below13 fits.x_fits) x0 x1)
      (word16-eq f ry (bit_and p.y 8191) p.y (low13 p.y fits.y_fits) (below13 fits.y_fits) y0 y1)

-- What the engine takes.
pub record JobFits (j : Job) : Type 0 where
  pub dt_fits : Fits j.dt
  pub s0_fits : Fits j.s0
  pub s1_fits : Fits j.s1
  pub w_fits : j.w < 8192
  pub h_fits : j.h < 8192
  pub rop_fits : j.rop < 16
  pub op_fits : j.op < 16

-- The two halves of a byte.
pub halves :
    (b rop op : ℕ)
    → rop < 16
    → op < 16
    → b ≡ u8 (bit_or (rop * 16) (bit_and op 15))
    → (b / 16 ≡ rop) × (b % 16 ≡ op)
halves b rop op h k e =
    let low : bit_and op 15 ≡ op = and_ones 4 op k in
    let both : bit_or (rop * 16) (bit_and op 15) ≡ rop * 16 + op =
      ap (bit_or (rop * 16)) low ∙ or_high 4 rop op k in
    (omega arith, omega arith)
