-- ===== src/Emu/Util.antt =====
-- acca-emu/src/util.rs: immediates, sizes, registers and single bits. The newtypes `VMAddress`,
-- `Register` and `RegisterID` are the numbers that they hold.
pub mod Bit
pub mod Size
pub mod Register
pub mod Flags
pub mod MachineRegister
