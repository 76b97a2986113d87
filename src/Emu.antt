-- ===== src/Emu.antt =====
-- acca-emu: the emulator.
pub mod Platform
pub mod Util
pub mod State
pub mod Exception
pub mod Memory
pub mod Arithmetic
pub mod Logic
pub mod Control
pub mod Machine
pub mod Instruction
pub mod Execute
pub mod Isolation
pub mod Main
pub mod Tests
