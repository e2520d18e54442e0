-- ===== src/Graphics.antt =====
-- The LCD controller's driver, src/lt7680.c: bytes over SPI that set the registers of the chip.
pub mod Registers
pub mod Spi
pub mod Chip
pub mod Status
pub mod Settings
pub mod Engine
pub mod Jobs
pub mod Copies
pub mod Runs
pub mod RoundTrip
pub mod Panel
pub mod Start
pub mod Started
pub mod Sim
pub mod Tests
