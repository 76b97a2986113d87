-- ===== src/Emu/Instruction.antt =====
-- The instructions of acca-emu/src/vm.rs, and what `instructions!` of
-- acca-emu-proc-macro/src/lib.rs makes of their encodings.
pub mod Encodings
pub mod Syntax
pub mod Operands
pub mod Parameters
pub mod ArmParameters
pub mod OperandLists
pub mod ByType
pub mod TypeParser
pub mod Select
pub mod RoundTrip
