-- ===== src/Assembler/Literal/Digits.antt =====
-- The value of an integer literal.
