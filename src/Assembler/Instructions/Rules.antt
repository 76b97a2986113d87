-- ===== src/Assembler/Instructions/Rules.antt =====
-- The rules of acca-as/src/grammar.pest that `instructions!` matches.
pub data InstructionRule : Type 0 where
  pushs pushp pops popp lds ldp sts stp ldi ldr copy add_reg add_imm sub_reg sub_imm mul div and_reg
        and_imm or_reg or_imm xor_reg xor_imm shl shr rot neg bswap soc sof jmpa jmpr cjmpa cjmpr
        calla callr ret eret udf dbg exc nop ldm stm pseudo_cmp_reg pseudo_cmp_imm :
      InstructionRule
