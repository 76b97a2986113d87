-- ===== src/Emu/Tests/Encodings.antt =====
-- Encodings at concrete values.
use acca.Prelude.{ℕ, ◌%◌, ◌^◌, ◌≡◌, refl, true, some, if◌then◌else◌, ◌==◌, ◌∷◌, [], List}
use acca.Encoding.Scan
use acca.Encoding.Collect.{collect_into_array, array, collect_into_array-take}
use acca.Emu.Instruction.Parameters.{is_accepted, operand_values}
use acca.Emu.Instruction.ArmParameters.{arm_parameters}
use acca.Emu.Instruction.ByType.{decoded_operands, operands-operand_values}
use acca.Encoding.Scan.{bits_of, matches, encode, variable_value}
use acca.Encoding.RoundTrip.{width}
use acca.Emu.Instruction.Encodings.{Opcode, encoding}
use acca.Emu.Instruction.Operands.{operands}
use acca.Emu.Instruction.Select.{select, decode}
use acca.Emu.Instruction.RoundTrip.{select-matches, decode-encode}

-- The value 13 for the variable `d`, and 2 for all others.
abbrev value : ℕ → ℕ
value name = if name == b'd' then 13 else 2

nop-matches : matches (encoding Opcode.nop) 0x04000000 ≡ true
unfolding matches encoding Scan.required_mask Scan.required_mask_value
nop-matches = refl

select-matches_example : select 0x04000000 ≡ some Opcode.nop
select-matches_example = select-matches Opcode.nop 0x04000000 nop-matches

decode-encode_example :
    (select (encode (encoding Opcode.copy) value) ≡ some Opcode.copy)
    × (decode Opcode.copy (encode (encoding Opcode.copy) value)
        ≡ operands Opcode.copy
            (λ name. value name % 2 ^ 32 % 2 ^ width name (encoding Opcode.copy)))
decode-encode_example = decode-encode Opcode.copy value

-- `lds` with the double-byte size from register 13 into register 9.
abbrev lds_values : ℕ → ℕ
lds_values char = if char == b's' then 1 else if char == b'd' then 9 else 13

operands-operand_values_example :
    (is_accepted (encoding Opcode.lds) (arm_parameters Opcode.lds) ≡ true)
    × (decoded_operands (operands Opcode.lds lds_values)
        ≡ operand_values (arm_parameters Opcode.lds) lds_values)
operands-operand_values_example = operands-operand_values Opcode.lds lds_values

abbrev three : List ℕ
three = 7 ∷ 8 ∷ 9 ∷ []

collect_into_array-take_example : collect_into_array 2 three ≡ array (7 ∷ 8 ∷ [])
collect_into_array-take_example = collect_into_array-take 2 three
