-- ===== src/Flash.antt =====
-- The files in the flash memory, src/flash.c, over littlefs.
pub mod Littlefs
pub mod Files
pub mod Balance
pub mod Failures
pub mod Tests
