-- ===== src/Writer.antt =====
-- The writer of src/writer.cpp: `DoWrites`, which carries out the instructions that JavaScript lays
-- down in a shared buffer.
pub mod Instr
pub mod Host
pub mod Kinds
pub mod Checks
pub mod Exec
pub mod Waiting
pub mod Blocks
pub mod IfVersion
