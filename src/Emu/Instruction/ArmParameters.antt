-- ===== src/Emu/Instruction/ArmParameters.antt =====
-- The parameters of the match arms in acca-emu/src/vm.rs.
use acca.Prelude.{List, [], ◌∷◌}
use acca.Emu.Instruction.Encodings.{Opcode}
use acca.Emu.Instruction.Parameters.{
  Parameter, register, nullable_register_type, boolean, size, condition, nullable_condition_type,
  immediate, relative_immediate,
}

-- The parameters of the arms.
unfoldable pub arm_parameters : Opcode → List Parameter
arm_parameters Opcode.pushs = (b's', size) ∷ (b'a', nullable_register_type) ∷ []
arm_parameters Opcode.pushp =
    (b's', size) ∷ (b'a', nullable_register_type) ∷ (b'b', nullable_register_type) ∷ []
arm_parameters Opcode.pops = (b's', size) ∷ (b'a', nullable_register_type) ∷ []
arm_parameters Opcode.popp =
    (b's', size) ∷ (b'a', nullable_register_type) ∷ (b'b', nullable_register_type) ∷ []
arm_parameters Opcode.lds = (b's', size) ∷ (b'd', register) ∷ (b'a', register) ∷ []
arm_parameters Opcode.ldp =
    (b's', size) ∷ (b'd', register) ∷ (b'e', register) ∷ (b'a', register) ∷ []
arm_parameters Opcode.sts = (b's', size) ∷ (b'a', register) ∷ (b'b', register) ∷ []
arm_parameters Opcode.stp =
    (b's', size) ∷ (b'a', register) ∷ (b'b', register) ∷ (b'c', register) ∷ []
arm_parameters Opcode.ldi =
    (b'd', register) ∷ (b'a', immediate 16) ∷ (b'b', immediate 6) ∷ (b'c', immediate 2) ∷ []
arm_parameters Opcode.ldr = (b'd', register) ∷ (b'a', relative_immediate 22) ∷ []
arm_parameters Opcode.copy = (b's', size) ∷ (b'd', register) ∷ (b'S', register) ∷ []
arm_parameters Opcode.add_reg =
    (b's', size)
    ∷ (b'd', nullable_register_type)
    ∷ (b'a', register)
    ∷ (b'b', register)
    ∷ (b'c', boolean)
    ∷ (b'f', boolean)
    ∷ []
arm_parameters Opcode.add_imm =
    (b's', size)
    ∷ (b'd', nullable_register_type)
    ∷ (b'a', register)
    ∷ (b'b', immediate 11)
    ∷ (b'S', immediate 3)
    ∷ (b'A', boolean)
    ∷ (b'c', boolean)
    ∷ (b'f', boolean)
    ∷ []
arm_parameters Opcode.sub_reg =
    (b's', size)
    ∷ (b'd', nullable_register_type)
    ∷ (b'a', register)
    ∷ (b'b', register)
    ∷ (b'B', boolean)
    ∷ (b'f', boolean)
    ∷ []
arm_parameters Opcode.sub_imm =
    (b's', size)
    ∷ (b'd', nullable_register_type)
    ∷ (b'a', register)
    ∷ (b'b', immediate 11)
    ∷ (b'S', immediate 3)
    ∷ (b'A', boolean)
    ∷ (b'B', boolean)
    ∷ (b'f', boolean)
    ∷ []
arm_parameters Opcode.mul =
    (b's', size)
    ∷ (b't', size)
    ∷ (b'd', register)
    ∷ (b'a', register)
    ∷ (b'b', register)
    ∷ (b'S', boolean)
    ∷ (b'f', boolean)
    ∷ []
arm_parameters Opcode.div =
    (b's', size)
    ∷ (b'd', register)
    ∷ (b'r', register)
    ∷ (b'a', register)
    ∷ (b'b', register)
    ∷ (b'S', boolean)
    ∷ (b'f', boolean)
    ∷ []
arm_parameters Opcode.and_reg =
    (b's', size)
    ∷ (b'd', nullable_register_type)
    ∷ (b'a', register)
    ∷ (b'b', register)
    ∷ (b'f', boolean)
    ∷ []
arm_parameters Opcode.and_imm =
    (b's', size)
    ∷ (b'd', nullable_register_type)
    ∷ (b'a', register)
    ∷ (b'b', immediate 11)
    ∷ (b'S', immediate 3)
    ∷ (b'A', boolean)
    ∷ (b'f', boolean)
    ∷ []
arm_parameters Opcode.or_reg =
    (b's', size)
    ∷ (b'd', nullable_register_type)
    ∷ (b'a', register)
    ∷ (b'b', register)
    ∷ (b'f', boolean)
    ∷ []
arm_parameters Opcode.or_imm =
    (b's', size)
    ∷ (b'd', nullable_register_type)
    ∷ (b'a', register)
    ∷ (b'b', immediate 11)
    ∷ (b'S', immediate 3)
    ∷ (b'A', boolean)
    ∷ (b'f', boolean)
    ∷ []
arm_parameters Opcode.xor_reg =
    (b's', size)
    ∷ (b'd', nullable_register_type)
    ∷ (b'a', register)
    ∷ (b'b', register)
    ∷ (b'f', boolean)
    ∷ []
arm_parameters Opcode.xor_imm =
    (b's', size)
    ∷ (b'd', nullable_register_type)
    ∷ (b'a', register)
    ∷ (b'b', immediate 11)
    ∷ (b'S', immediate 3)
    ∷ (b'A', boolean)
    ∷ (b'f', boolean)
    ∷ []
arm_parameters Opcode.shl_reg =
    (b's', size)
    ∷ (b'd', nullable_register_type)
    ∷ (b'a', register)
    ∷ (b'b', register)
    ∷ (b'f', boolean)
    ∷ []
arm_parameters Opcode.shl_imm =
    (b's', size)
    ∷ (b'd', nullable_register_type)
    ∷ (b'a', register)
    ∷ (b'b', immediate 7)
    ∷ (b'f', boolean)
    ∷ []
arm_parameters Opcode.shr_reg =
    (b's', size)
    ∷ (b'd', nullable_register_type)
    ∷ (b'a', register)
    ∷ (b'b', register)
    ∷ (b'A', boolean)
    ∷ (b'f', boolean)
    ∷ []
arm_parameters Opcode.shr_imm =
    (b's', size)
    ∷ (b'd', nullable_register_type)
    ∷ (b'a', register)
    ∷ (b'b', immediate 7)
    ∷ (b'A', boolean)
    ∷ (b'f', boolean)
    ∷ []
arm_parameters Opcode.rot_reg =
    (b's', size)
    ∷ (b'd', nullable_register_type)
    ∷ (b'a', register)
    ∷ (b'b', register)
    ∷ (b'f', boolean)
    ∷ []
arm_parameters Opcode.rot_imm =
    (b's', size)
    ∷ (b'd', nullable_register_type)
    ∷ (b'a', register)
    ∷ (b'b', immediate 7)
    ∷ (b'f', boolean)
    ∷ []
arm_parameters Opcode.neg =
    (b's', size) ∷ (b'd', register) ∷ (b'a', register) ∷ (b'f', boolean) ∷ []
arm_parameters Opcode.bswap =
    (b's', size) ∷ (b'd', register) ∷ (b'a', register) ∷ (b'f', boolean) ∷ []
arm_parameters Opcode.soc =
    (b's', size)
    ∷ (b'd', register)
    ∷ (b'a', register)
    ∷ (b'b', register)
    ∷ (b'c', condition)
    ∷ (b'B', boolean)
    ∷ []
arm_parameters Opcode.sof = (b's', size) ∷ (b'd', register) ∷ (b'c', condition) ∷ []
arm_parameters Opcode.jmpa = (b'c', nullable_condition_type) ∷ (b'a', register) ∷ []
arm_parameters Opcode.jmpr_reg = (b'c', nullable_condition_type) ∷ (b'a', register) ∷ []
arm_parameters Opcode.jmpr_imm =
    (b'c', nullable_condition_type) ∷ (b'a', relative_immediate 22) ∷ []
arm_parameters Opcode.cjmpa =
    (b'c', condition) ∷ (b's', size) ∷ (b'a', register) ∷ (b'b', register) ∷ (b'C', register) ∷ []
arm_parameters Opcode.cjmpr_reg =
    (b'c', condition) ∷ (b's', size) ∷ (b'a', register) ∷ (b'b', register) ∷ (b'C', register) ∷ []
arm_parameters Opcode.cjmpr_imm =
    (b'c', condition)
    ∷ (b's', size)
    ∷ (b'a', relative_immediate 13)
    ∷ (b'b', register)
    ∷ (b'C', register)
    ∷ []
arm_parameters Opcode.calla = (b'c', nullable_condition_type) ∷ (b'a', register) ∷ []
arm_parameters Opcode.callr_reg = (b'c', nullable_condition_type) ∷ (b'a', register) ∷ []
arm_parameters Opcode.callr_imm =
    (b'c', nullable_condition_type) ∷ (b'a', relative_immediate 22) ∷ []
arm_parameters Opcode.ret = []
arm_parameters Opcode.eret = []
arm_parameters Opcode.udf = []
arm_parameters Opcode.dbg = []
arm_parameters Opcode.exc = (b'a', immediate 16) ∷ []
arm_parameters Opcode.nop = []
arm_parameters Opcode.ldm = (b'd', register) ∷ (b'a', immediate 22) ∷ []
arm_parameters Opcode.stm = (b'd', immediate 22) ∷ (b'a', register) ∷ []
