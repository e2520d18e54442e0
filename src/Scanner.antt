-- ===== src/Scanner.antt =====
-- The three scanners of lines, src/regex_34401a.c, which re2c generated from src/regex_34401a.re.
pub mod Regex
pub mod Machine
pub mod Simulation
pub mod Grammar
pub mod Reading
pub mod Menu
pub mod Display
pub mod Lines
pub mod Tests
