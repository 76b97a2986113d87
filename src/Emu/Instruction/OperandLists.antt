-- ===== src/Emu/Instruction/OperandLists.antt =====
-- The operands of the instructions of acca-emu/src/vm.rs, in the order of the parameters.
use acca.Prelude.{List, [], ◌∷◌}
use acca.Emu.Instruction.Syntax.{Instruction}
use acca.Emu.Instruction.Parameters.{
  Operand, register_id, number, optional_register, flag, size_of, condition_of, optional_condition,
}

unfoldable pub instruction_operands : Instruction → List Operand
instruction_operands (Instruction.pushs size_ src) = size_of size_ ∷ optional_register src ∷ []
instruction_operands (Instruction.pushp size_ src1 src2) =
    size_of size_ ∷ optional_register src1 ∷ optional_register src2 ∷ []
instruction_operands (Instruction.pops size_ dst) = size_of size_ ∷ optional_register dst ∷ []
instruction_operands (Instruction.popp size_ dst1 dst2) =
    size_of size_ ∷ optional_register dst1 ∷ optional_register dst2 ∷ []
instruction_operands (Instruction.lds size_ dst src_addr) =
    size_of size_ ∷ register_id dst ∷ register_id src_addr ∷ []
instruction_operands (Instruction.ldp size_ dst1 dst2 src_addr) =
    size_of size_ ∷ register_id dst1 ∷ register_id dst2 ∷ register_id src_addr ∷ []
instruction_operands (Instruction.sts size_ dst_addr src) =
    size_of size_ ∷ register_id dst_addr ∷ register_id src ∷ []
instruction_operands (Instruction.stp size_ dst_addr src1 src2) =
    size_of size_ ∷ register_id dst_addr ∷ register_id src1 ∷ register_id src2 ∷ []
instruction_operands (Instruction.ldi dst src shift clear) =
    register_id dst ∷ number src ∷ number shift ∷ number clear ∷ []
instruction_operands (Instruction.ldr dst src) = register_id dst ∷ number src ∷ []
instruction_operands (Instruction.copy size_ dst src) =
    size_of size_ ∷ register_id dst ∷ register_id src ∷ []
instruction_operands (Instruction.add_reg size_ dst lhs rhs carry set_flags) =
    size_of size_
    ∷ optional_register dst
    ∷ register_id lhs
    ∷ register_id rhs
    ∷ flag carry
    ∷ flag set_flags
    ∷ []
instruction_operands
      (Instruction.add_imm size_ dst lhs rhs shift_factor sign_extend carry set_flags) =
    size_of size_
    ∷ optional_register dst
    ∷ register_id lhs
    ∷ number rhs
    ∷ number shift_factor
    ∷ flag sign_extend
    ∷ flag carry
    ∷ flag set_flags
    ∷ []
instruction_operands (Instruction.sub_reg size_ dst lhs rhs borrow set_flags) =
    size_of size_
    ∷ optional_register dst
    ∷ register_id lhs
    ∷ register_id rhs
    ∷ flag borrow
    ∷ flag set_flags
    ∷ []
instruction_operands
      (Instruction.sub_imm size_ dst lhs rhs shift_factor sign_extend borrow set_flags) =
    size_of size_
    ∷ optional_register dst
    ∷ register_id lhs
    ∷ number rhs
    ∷ number shift_factor
    ∷ flag sign_extend
    ∷ flag borrow
    ∷ flag set_flags
    ∷ []
instruction_operands (Instruction.mul src_size dst_size dst lhs rhs signed set_flags) =
    size_of src_size
    ∷ size_of dst_size
    ∷ register_id dst
    ∷ register_id lhs
    ∷ register_id rhs
    ∷ flag signed
    ∷ flag set_flags
    ∷ []
instruction_operands (Instruction.div size_ quot rem_ lhs rhs signed set_flags) =
    size_of size_
    ∷ register_id quot
    ∷ register_id rem_
    ∷ register_id lhs
    ∷ register_id rhs
    ∷ flag signed
    ∷ flag set_flags
    ∷ []
instruction_operands (Instruction.and_reg size_ dst lhs rhs set_flags) =
    size_of size_ ∷ optional_register dst ∷ register_id lhs ∷ register_id rhs ∷ flag set_flags ∷ []
instruction_operands (Instruction.and_imm size_ dst lhs rhs shift_factor sign_extend set_flags) =
    size_of size_
    ∷ optional_register dst
    ∷ register_id lhs
    ∷ number rhs
    ∷ number shift_factor
    ∷ flag sign_extend
    ∷ flag set_flags
    ∷ []
instruction_operands (Instruction.or_reg size_ dst lhs rhs set_flags) =
    size_of size_ ∷ optional_register dst ∷ register_id lhs ∷ register_id rhs ∷ flag set_flags ∷ []
instruction_operands (Instruction.or_imm size_ dst lhs rhs shift_factor sign_extend set_flags) =
    size_of size_
    ∷ optional_register dst
    ∷ register_id lhs
    ∷ number rhs
    ∷ number shift_factor
    ∷ flag sign_extend
    ∷ flag set_flags
    ∷ []
instruction_operands (Instruction.xor_reg size_ dst lhs rhs set_flags) =
    size_of size_ ∷ optional_register dst ∷ register_id lhs ∷ register_id rhs ∷ flag set_flags ∷ []
instruction_operands (Instruction.xor_imm size_ dst lhs rhs shift_factor sign_extend set_flags) =
    size_of size_
    ∷ optional_register dst
    ∷ register_id lhs
    ∷ number rhs
    ∷ number shift_factor
    ∷ flag sign_extend
    ∷ flag set_flags
    ∷ []
instruction_operands (Instruction.shl_reg size_ dst lhs rhs set_flags) =
    size_of size_ ∷ optional_register dst ∷ register_id lhs ∷ register_id rhs ∷ flag set_flags ∷ []
instruction_operands (Instruction.shl_imm size_ dst lhs rhs set_flags) =
    size_of size_ ∷ optional_register dst ∷ register_id lhs ∷ number rhs ∷ flag set_flags ∷ []
instruction_operands (Instruction.shr_reg size_ dst lhs rhs signed set_flags) =
    size_of size_
    ∷ optional_register dst
    ∷ register_id lhs
    ∷ register_id rhs
    ∷ flag signed
    ∷ flag set_flags
    ∷ []
instruction_operands (Instruction.shr_imm size_ dst lhs rhs signed set_flags) =
    size_of size_
    ∷ optional_register dst
    ∷ register_id lhs
    ∷ number rhs
    ∷ flag signed
    ∷ flag set_flags
    ∷ []
instruction_operands (Instruction.rot_reg size_ dst lhs rhs set_flags) =
    size_of size_ ∷ optional_register dst ∷ register_id lhs ∷ register_id rhs ∷ flag set_flags ∷ []
instruction_operands (Instruction.rot_imm size_ dst lhs rhs set_flags) =
    size_of size_ ∷ optional_register dst ∷ register_id lhs ∷ number rhs ∷ flag set_flags ∷ []
instruction_operands (Instruction.neg size_ dst src set_flags) =
    size_of size_ ∷ register_id dst ∷ register_id src ∷ flag set_flags ∷ []
instruction_operands (Instruction.bswap size_ dst src set_flags) =
    size_of size_ ∷ register_id dst ∷ register_id src ∷ flag set_flags ∷ []
instruction_operands (Instruction.soc size_ dst lhs rhs cond borrow) =
    size_of size_
    ∷ register_id dst
    ∷ register_id lhs
    ∷ register_id rhs
    ∷ condition_of cond
    ∷ flag borrow
    ∷ []
instruction_operands (Instruction.sof size_ dst cond) =
    size_of size_ ∷ register_id dst ∷ condition_of cond ∷ []
instruction_operands (Instruction.jmpa cond addr) = optional_condition cond ∷ register_id addr ∷ []
instruction_operands (Instruction.jmpr_reg cond addr) =
    optional_condition cond ∷ register_id addr ∷ []
instruction_operands (Instruction.jmpr_imm cond addr) = optional_condition cond ∷ number addr ∷ []
instruction_operands (Instruction.cjmpa cond size_ addr lhs rhs) =
    condition_of cond ∷ size_of size_ ∷ register_id addr ∷ register_id lhs ∷ register_id rhs ∷ []
instruction_operands (Instruction.cjmpr_reg cond size_ addr lhs rhs) =
    condition_of cond ∷ size_of size_ ∷ register_id addr ∷ register_id lhs ∷ register_id rhs ∷ []
instruction_operands (Instruction.cjmpr_imm cond size_ addr lhs rhs) =
    condition_of cond ∷ size_of size_ ∷ number addr ∷ register_id lhs ∷ register_id rhs ∷ []
instruction_operands (Instruction.calla cond addr) = optional_condition cond ∷ register_id addr ∷ []
instruction_operands (Instruction.callr_reg cond addr) =
    optional_condition cond ∷ register_id addr ∷ []
instruction_operands (Instruction.callr_imm cond addr) = optional_condition cond ∷ number addr ∷ []
instruction_operands Instruction.ret = []
instruction_operands Instruction.eret = []
instruction_operands Instruction.udf = []
instruction_operands Instruction.dbg = []
instruction_operands (Instruction.exc val) = number val ∷ []
instruction_operands Instruction.nop = []
instruction_operands (Instruction.ldm dst src_mreg) = register_id dst ∷ number src_mreg ∷ []
instruction_operands (Instruction.stm dst_mreg src) = number dst_mreg ∷ register_id src ∷ []
