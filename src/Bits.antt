-- ===== src/Bits.antt =====
-- Arithmetic readings of the bit operations at every width.
pub mod Step
pub mod Power
pub mod Mask
pub mod Digit
pub mod Width
