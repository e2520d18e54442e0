-- ===== src/Screen.antt =====
-- The display task, src/display.c: the twelve cells of the LCD, and when they change.
pub mod Cells
pub mod Status
pub mod Theme
pub mod Refresh
pub mod Update
pub mod Task
pub mod Engine
pub mod Wire
pub mod Tests
pub mod EngineTests
