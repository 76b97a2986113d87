-- ===== src/Emu/Tests.antt =====
-- A platform and states to run the emulator on, and tests.
pub mod Concrete
mod Machine
mod Values
mod Encodings
mod Types
