-- ===== src/Command.antt =====
-- The SCPI command interpreter, src/command_util.c and `process_command` of src/command.c.
pub mod Tree
pub mod Interpreter
pub mod Paths
pub mod Handlers
pub mod Rows
pub mod Tables
pub mod Spelling
pub mod Reach
pub mod Stack
pub mod Errors
pub mod Numbers
pub mod Settings
pub mod Indices
pub mod Tests
pub mod TableTests
pub mod NumberTests
