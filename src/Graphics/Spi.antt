-- ===== src/Graphics/Spi.antt =====
-- The bytes that src/lt7680.c sends and receives. The SPI and the pins are the Pico SDK's: they are
-- functions on a state that stands for the world behind them.
use lcdpico_34401a.Common.{ℕ, ◌+◌, ◌*◌, ◌/◌, ◌^◌, bit_or, Bool, true, false, u8}

-- What the driver calls of the SDK. A byte is sent while another is received.
pub record Bus (S : Type 0) : Type 0 where
  pub set_cs : Bool → S → S
  pub spi_write_read_blocking : ℕ → S → ℕ × S
  pub set_reset : Bool → S → S
  pub sleep_ms : ℕ → S → S

-- One call after the other.
infixl 5 ◌▷◌
abbrev pub ◌▷◌ : {A B : Type 0} → A → (A → B) → B
a ▷ f = f a

module _ {S : Type 0} (bus : Bus S) where
  unfoldable pub spi_rw_byte : ℕ → S → ℕ × S
  spi_rw_byte byte s = bus.spi_write_read_blocking (u8 byte) s

  -- A byte is sent, and what is received is dropped.
  abbrev send : ℕ → S → S
  send byte s = (spi_rw_byte byte s).1

  unfoldable pub spi_cmd_write : ℕ → S → S
  unfolding spi_rw_byte
  spi_cmd_write cmd s = s ▷ bus.set_cs false ▷ send 0 ▷ send cmd ▷ bus.set_cs true

  unfoldable pub spi_data_write : ℕ → S → S
  unfolding spi_rw_byte
  spi_data_write data_byte s = s ▷ bus.set_cs false ▷ send 128 ▷ send data_byte ▷ bus.set_cs true

  unfoldable pub spi_status_read : S → ℕ × S
  unfolding spi_rw_byte
  spi_status_read s =
      let r : ℕ × S = s ▷ bus.set_cs false ▷ send 64 ▷ spi_rw_byte 0 in (r.0, bus.set_cs true r.1)

  unfoldable pub spi_data_read : S → ℕ × S
  unfolding spi_rw_byte
  spi_data_read s =
      let r : ℕ × S = s ▷ bus.set_cs false ▷ send 192 ▷ spi_rw_byte 0 in (r.0, bus.set_cs true r.1)

  unfoldable pub spi_read_register : ℕ → S → ℕ × S
  spi_read_register reg s = s ▷ spi_cmd_write reg ▷ spi_data_read

  -- Bytes are received, the lowest first.
  unfoldable pub spi_read_register_u16 : ℕ → S → ℕ × S
  spi_read_register_u16 reg s =
      let r1 : ℕ × S = spi_read_register reg s in
      let r2 : ℕ × S = spi_read_register (u8 (reg + 1)) r1.1 in
      (bit_or (u8 r2.0 * 2 ^ 8) (u8 r1.0), r2.1)

  unfoldable pub spi_read_register_u32 : ℕ → S → ℕ × S
  spi_read_register_u32 reg s =
      let r1 : ℕ × S = spi_read_register reg s in
      let r2 : ℕ × S = spi_read_register (u8 (reg + 1)) r1.1 in
      let r3 : ℕ × S = spi_read_register (u8 (reg + 2)) r2.1 in
      let r4 : ℕ × S = spi_read_register (u8 (reg + 3)) r3.1 in
      (
        bit_or (bit_or (bit_or (u8 r4.0 * 2 ^ 24) (u8 r3.0 * 2 ^ 16)) (u8 r2.0 * 2 ^ 8)) (u8 r1.0),
        r4.1,
      )

  unfoldable pub spi_write_register : ℕ → ℕ → S → S
  spi_write_register reg val s = s ▷ spi_cmd_write reg ▷ spi_data_write val

  unfoldable pub spi_write_register_u16 : ℕ → ℕ → S → S
  spi_write_register_u16 reg val s =
      s ▷ spi_write_register reg val ▷ spi_write_register (reg + 1) (val / 256)

  unfoldable pub spi_write_register_u32 : ℕ → ℕ → S → S
  spi_write_register_u32 reg val s =
      s
      ▷ spi_write_register reg val
      ▷ spi_write_register (reg + 1) (val / 256)
      ▷ spi_write_register (reg + 2) (val / 65536)
      ▷ spi_write_register (reg + 3) (val / 16777216)
