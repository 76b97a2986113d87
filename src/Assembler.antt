-- ===== src/Assembler.antt =====
-- acca-as: the assembler.
pub mod Outcome
pub mod Syntax
pub mod Literal
pub mod Immediate
pub mod Registers
pub mod Operands
pub mod Template
pub mod Instructions
pub mod Macro
pub mod Layout
mod Tests
