-- ===== src/Decoder.antt =====
-- The HP 34401A front panel decoder, src/decoder_34401a.c and src/decoder_34401a.h.
pub mod State
pub mod Edge
pub mod Message
pub mod Publish
pub mod Process
pub mod Valid
pub mod Fifo
pub mod Frames
pub mod Text
pub mod Sampling
pub mod Drain
pub mod Buttons
pub mod Panel
pub mod Scanned
pub mod Tests
pub mod FrameTests
pub mod ScanTests
