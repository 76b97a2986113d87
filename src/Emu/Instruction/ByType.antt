-- ===== src/Emu/Instruction/ByType.antt =====
-- The operands of the match arms are those that the macro of acca-emu-proc-macro/src/lib.rs reads
-- by the types of the parameters.
use acca.Prelude.{ℕ, Option, none, some, List, ◌≡◌, refl, arith, true}
use acca.Emu.Instruction.Encodings.{Opcode, encoding}
use acca.Emu.Instruction.Syntax.{Instruction}
use acca.Emu.Instruction.Operands.{operands}
use acca.Emu.Instruction.Parameters.{Operand, operand_value, operand_values, is_accepted}
use acca.Emu.Instruction.ArmParameters.{arm_parameters}
use acca.Emu.Instruction.OperandLists.{instruction_operands}

-- The operands of a decoded instruction.
abbrev pub decoded_operands : Option Instruction → Option (List Operand)
decoded_operands none = none
decoded_operands (some instruction) = some (instruction_operands instruction)

-- For each match arm the macro accepts the parameters for the encoding: each variable has its
-- parameter and each parameter its variable. Whatever the values of the variables, the operands
-- are those that the types of the parameters give, in their order, and a value that one of the
-- types does not know is a panic.
pub operands-operand_values :
    (op : Opcode) (value : ℕ → ℕ)
    → (is_accepted (encoding op) (arm_parameters op) ≡ true)
      × (decoded_operands (operands op value) ≡ operand_values (arm_parameters op) value)
unfolding encoding is_accepted operands operand_value operand_values arm_parameters
    instruction_operands
operands-operand_values Opcode.pushs value = (refl, ground arith)
operands-operand_values Opcode.pushp value = (refl, ground arith)
operands-operand_values Opcode.pops value = (refl, ground arith)
operands-operand_values Opcode.popp value = (refl, ground arith)
operands-operand_values Opcode.lds value = (refl, ground arith)
operands-operand_values Opcode.ldp value = (refl, ground arith)
operands-operand_values Opcode.sts value = (refl, ground arith)
operands-operand_values Opcode.stp value = (refl, ground arith)
operands-operand_values Opcode.ldi value = (refl, ground arith)
operands-operand_values Opcode.ldr value = (refl, ground arith)
operands-operand_values Opcode.copy value = (refl, ground arith)
operands-operand_values Opcode.add_reg value = (refl, ground arith)
operands-operand_values Opcode.add_imm value = (refl, ground arith)
operands-operand_values Opcode.sub_reg value = (refl, ground arith)
operands-operand_values Opcode.sub_imm value = (refl, ground arith)
operands-operand_values Opcode.mul value = (refl, ground arith)
operands-operand_values Opcode.div value = (refl, ground arith)
operands-operand_values Opcode.and_reg value = (refl, ground arith)
operands-operand_values Opcode.and_imm value = (refl, ground arith)
operands-operand_values Opcode.or_reg value = (refl, ground arith)
operands-operand_values Opcode.or_imm value = (refl, ground arith)
operands-operand_values Opcode.xor_reg value = (refl, ground arith)
operands-operand_values Opcode.xor_imm value = (refl, ground arith)
operands-operand_values Opcode.shl_reg value = (refl, ground arith)
operands-operand_values Opcode.shl_imm value = (refl, ground arith)
operands-operand_values Opcode.shr_reg value = (refl, ground arith)
operands-operand_values Opcode.shr_imm value = (refl, ground arith)
operands-operand_values Opcode.rot_reg value = (refl, ground arith)
operands-operand_values Opcode.rot_imm value = (refl, ground arith)
operands-operand_values Opcode.neg value = (refl, ground arith)
operands-operand_values Opcode.bswap value = (refl, ground arith)
operands-operand_values Opcode.soc value = (refl, ground arith)
operands-operand_values Opcode.sof value = (refl, ground arith)
operands-operand_values Opcode.jmpa value = (refl, ground arith)
operands-operand_values Opcode.jmpr_reg value = (refl, ground arith)
operands-operand_values Opcode.jmpr_imm value = (refl, ground arith)
operands-operand_values Opcode.cjmpa value = (refl, ground arith)
operands-operand_values Opcode.cjmpr_reg value = (refl, ground arith)
operands-operand_values Opcode.cjmpr_imm value = (refl, ground arith)
operands-operand_values Opcode.calla value = (refl, ground arith)
operands-operand_values Opcode.callr_reg value = (refl, ground arith)
operands-operand_values Opcode.callr_imm value = (refl, ground arith)
operands-operand_values Opcode.ret value = (refl, refl)
operands-operand_values Opcode.eret value = (refl, refl)
operands-operand_values Opcode.udf value = (refl, refl)
operands-operand_values Opcode.dbg value = (refl, refl)
operands-operand_values Opcode.exc value = (refl, ground arith)
operands-operand_values Opcode.nop value = (refl, refl)
operands-operand_values Opcode.ldm value = (refl, ground arith)
operands-operand_values Opcode.stm value = (refl, ground arith)
