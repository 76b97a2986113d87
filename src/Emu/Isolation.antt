-- ===== src/Emu/Isolation.antt =====
-- Precise exceptions and the isolation of programs that run in PL1, over `execute_one` of
-- acca-emu/src/vm.rs.
pub mod System
pub mod Flags
pub mod Data
pub mod Values
pub mod Jumps
pub mod Step
pub mod Run
