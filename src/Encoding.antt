-- ===== src/Encoding.antt =====
-- The 32-bit encodings: the strings such as `1100110000000000000000ssddddaaaa`, the decoder that
-- `instructions!` of acca-emu-proc-macro/src/lib.rs generates from one, and the encoder that
-- `instruction_encoding!` of acca-as-proc-macro/src/lib.rs generates.
pub mod Scan
pub mod Collect
pub mod Digits
pub mod Gather
pub mod RoundTrip
pub mod Refinement
