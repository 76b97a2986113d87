-- ===== src/Emu/Instruction/Select.antt =====
-- The choice of the match arm in `instructions!` of acca-emu-proc-macro/src/lib.rs.
use acca.Prelude.{ℕ, Option, none, some, List, [], ◌∷◌, if◌then◌else◌}
use acca.Encoding.Scan.{matches, variable_value}
use acca.Emu.Instruction.Encodings.{Opcode, encoding, opcodes}
use acca.Emu.Instruction.Syntax.{Instruction}
use acca.Emu.Instruction.Operands.{operands}

unfoldable pub first_match : List Opcode → ℕ → Option Opcode
first_match [] encoded = none
first_match (op ∷ rest) encoded =
    if matches (encoding op) encoded then some op else first_match rest encoded

-- The `match` on `encoded`; `none` is its default arm.
unfoldable pub select : ℕ → Option Opcode
unfolding first_match
select encoded = first_match opcodes encoded

unfoldable pub decode : Opcode → ℕ → Option Instruction
decode op encoded = operands op (λ name. variable_value name (encoding op) encoded)
