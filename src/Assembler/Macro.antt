-- ===== src/Assembler/Macro.antt =====
-- The macros `instructions!` and `instruction_encoding!` of acca-as-proc-macro/src/lib.rs: how
-- they read their tokens.
pub mod Tokens
pub mod Types
pub mod Alternatives
pub mod Header
pub mod Encoding
pub mod Arms
pub mod Expansion
pub mod Notation
pub mod Table
pub mod Sequences
pub mod Fuel
pub mod Ends
pub mod ArmsEnd
pub mod Total
pub mod Templates
