-- ===== src/Util.antt =====
-- Helpers of src/util.c on buffers.
pub mod Copies
pub mod Powers
pub mod Tests
