-- ===== src/Assembler/Macro/Templates.antt =====
-- What the macros make of the instructions of acca-as/src/main.rs.
use acca.Prelude.{◌≡◌, refl}
use acca.Assembler.Instructions.Rules.{InstructionRule}
use acca.Assembler.Instructions.Parameters.{condition_modifier, size_modifier, parameters}
use acca.Assembler.Instructions.Bodies.{body}
use acca.Assembler.Instructions.{template}
use acca.Assembler.Literal.{to_digit, next_value, digits_value, from_str_radix}
use acca.Assembler.Macro.Tokens.{done}
use acca.Assembler.Macro.Types.{argument_type, alternative_type, alternatives}
use acca.Assembler.Macro.Header.{
  Litrs, skip_instruction_name, set_modifier, read_modifiers, needed_comma, optional_comma,
  consumer, default_value, named_argument, handle_tok, read_arguments, arrow_body, read_body,
  instruction_helper,
}
use acca.Assembler.Macro.Encoding.{
  split_semicolon, letter, var_idents, text, read_bits, instruction_encoding,
}
use acca.Assembler.Macro.Arms.{arm_names, registers, sizes, arm_value, letters, arms}
use acca.Assembler.Macro.Expansion.{expanded_body, expanded, instruction_arm}
use acca.Assembler.Macro.Table.{instruction_tokens, rule_name}

-- The macros make of the tokens of each instruction, under its name, the template of its rule.
pub instruction_arm-instruction_tokens :
    ⦃litrs : Litrs⦄ (rule : InstructionRule)
    → instruction_arm (instruction_tokens rule) ≡ done (rule_name rule, template rule)
unfolding condition_modifier size_modifier parameters body to_digit next_value digits_value
    from_str_radix argument_type alternative_type alternatives skip_instruction_name set_modifier
    read_modifiers needed_comma optional_comma consumer default_value named_argument handle_tok
    read_arguments arrow_body read_body instruction_helper split_semicolon letter var_idents text
    read_bits instruction_encoding arm_names registers sizes arm_value letters arms expanded_body
    expanded instruction_arm instruction_tokens rule_name
instruction_arm-instruction_tokens InstructionRule.pushs = refl
instruction_arm-instruction_tokens InstructionRule.pushp = refl
instruction_arm-instruction_tokens InstructionRule.pops = refl
instruction_arm-instruction_tokens InstructionRule.popp = refl
instruction_arm-instruction_tokens InstructionRule.lds = refl
instruction_arm-instruction_tokens InstructionRule.ldp = refl
instruction_arm-instruction_tokens InstructionRule.sts = refl
instruction_arm-instruction_tokens InstructionRule.stp = refl
instruction_arm-instruction_tokens InstructionRule.ldi = refl
instruction_arm-instruction_tokens InstructionRule.ldr = refl
instruction_arm-instruction_tokens InstructionRule.copy = refl
instruction_arm-instruction_tokens InstructionRule.add_reg = refl
instruction_arm-instruction_tokens InstructionRule.add_imm = refl
instruction_arm-instruction_tokens InstructionRule.sub_reg = refl
instruction_arm-instruction_tokens InstructionRule.sub_imm = refl
instruction_arm-instruction_tokens InstructionRule.mul = refl
instruction_arm-instruction_tokens InstructionRule.div = refl
instruction_arm-instruction_tokens InstructionRule.and_reg = refl
instruction_arm-instruction_tokens InstructionRule.and_imm = refl
instruction_arm-instruction_tokens InstructionRule.or_reg = refl
instruction_arm-instruction_tokens InstructionRule.or_imm = refl
instruction_arm-instruction_tokens InstructionRule.xor_reg = refl
instruction_arm-instruction_tokens InstructionRule.xor_imm = refl
instruction_arm-instruction_tokens InstructionRule.shl = refl
instruction_arm-instruction_tokens InstructionRule.shr = refl
instruction_arm-instruction_tokens InstructionRule.rot = refl
instruction_arm-instruction_tokens InstructionRule.neg = refl
instruction_arm-instruction_tokens InstructionRule.bswap = refl
instruction_arm-instruction_tokens InstructionRule.soc = refl
instruction_arm-instruction_tokens InstructionRule.sof = refl
instruction_arm-instruction_tokens InstructionRule.jmpa = refl
instruction_arm-instruction_tokens InstructionRule.jmpr = refl
instruction_arm-instruction_tokens InstructionRule.cjmpa = refl
instruction_arm-instruction_tokens InstructionRule.cjmpr = refl
instruction_arm-instruction_tokens InstructionRule.calla = refl
instruction_arm-instruction_tokens InstructionRule.callr = refl
instruction_arm-instruction_tokens InstructionRule.ret = refl
instruction_arm-instruction_tokens InstructionRule.eret = refl
instruction_arm-instruction_tokens InstructionRule.udf = refl
instruction_arm-instruction_tokens InstructionRule.dbg = refl
instruction_arm-instruction_tokens InstructionRule.exc = refl
instruction_arm-instruction_tokens InstructionRule.nop = refl
instruction_arm-instruction_tokens InstructionRule.ldm = refl
instruction_arm-instruction_tokens InstructionRule.stm = refl
instruction_arm-instruction_tokens InstructionRule.pseudo_cmp_reg = refl
instruction_arm-instruction_tokens InstructionRule.pseudo_cmp_imm = refl
