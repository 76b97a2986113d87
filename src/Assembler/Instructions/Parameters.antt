-- ===== src/Assembler/Instructions/Parameters.antt =====
-- The modifiers and the arguments of the instructions.
use acca.Prelude.{ℕ, none, some, List, [], ◌∷◌}
use acca.Assembler.Template.{
  Modifier, absent, optional, required, ArgumentType, register, nullable_register, boolean,
  immediate, relative_immediate, register_or_immediate, register_or_relative_immediate, Consumer,
  next_byte_relative_immediate, next_machine_register_or_immediate, ArgumentSpec,
}
use acca.Assembler.Instructions.Rules.{InstructionRule}

unfoldable pub condition_modifier : InstructionRule → Modifier
condition_modifier InstructionRule.soc = required
condition_modifier InstructionRule.sof = required
condition_modifier InstructionRule.jmpa = optional
condition_modifier InstructionRule.jmpr = optional
condition_modifier InstructionRule.cjmpa = required
condition_modifier InstructionRule.cjmpr = required
condition_modifier InstructionRule.calla = optional
condition_modifier InstructionRule.callr = optional
condition_modifier _ = absent

unfoldable pub size_modifier : InstructionRule → Modifier
size_modifier InstructionRule.ldi = absent
size_modifier InstructionRule.ldr = absent
size_modifier InstructionRule.mul = absent
size_modifier InstructionRule.jmpa = absent
size_modifier InstructionRule.jmpr = absent
size_modifier InstructionRule.calla = absent
size_modifier InstructionRule.callr = absent
size_modifier InstructionRule.ret = absent
size_modifier InstructionRule.eret = absent
size_modifier InstructionRule.udf = absent
size_modifier InstructionRule.dbg = absent
size_modifier InstructionRule.exc = absent
size_modifier InstructionRule.nop = absent
size_modifier InstructionRule.ldm = absent
size_modifier InstructionRule.stm = absent
size_modifier _ = optional

abbrev pub argument : ℕ → ArgumentType → ArgumentSpec
argument name ty = record { name = name; ty = ty; default = none; consumer_function = none }

-- An argument in brackets.
abbrev pub optional_argument : ℕ → ArgumentType → ArgumentSpec
optional_argument name ty = record {
  name = name;
  ty = ty;
  default = some 0;
  consumer_function = none;
}

abbrev pub consumed_argument : ℕ → ArgumentType → Consumer → ArgumentSpec
consumed_argument name ty consumer_ = record {
  name = name;
  ty = ty;
  default = none;
  consumer_function = some consumer_;
}

unfoldable pub parameters : InstructionRule → List ArgumentSpec
parameters InstructionRule.pushs = argument b'a' nullable_register ∷ []
parameters InstructionRule.pushp =
    argument b'a' nullable_register ∷ argument b'b' nullable_register ∷ []
parameters InstructionRule.pops = argument b'a' nullable_register ∷ []
parameters InstructionRule.popp =
    argument b'a' nullable_register ∷ argument b'b' nullable_register ∷ []
parameters InstructionRule.lds = argument b'd' register ∷ argument b'a' register ∷ []
parameters InstructionRule.ldp =
    argument b'd' register ∷ argument b'e' register ∷ argument b'a' register ∷ []
parameters InstructionRule.sts = argument b'a' register ∷ argument b'b' register ∷ []
parameters InstructionRule.stp =
    argument b'a' register ∷ argument b'b' register ∷ argument b'c' register ∷ []
parameters InstructionRule.ldi =
    argument b'd' register
    ∷ argument b'a' (immediate 16)
    ∷ optional_argument b'b' (immediate 6)
    ∷ optional_argument b'c' (immediate 2)
    ∷ []
parameters InstructionRule.ldr =
    argument b'd' register
    ∷ consumed_argument b'a' (relative_immediate 22) next_byte_relative_immediate
    ∷ []
parameters InstructionRule.copy = argument b'd' register ∷ argument b'S' register ∷ []
parameters InstructionRule.add_reg =
    argument b'd' nullable_register
    ∷ argument b'a' register
    ∷ argument b'b' register
    ∷ optional_argument b'c' boolean
    ∷ optional_argument b'f' boolean
    ∷ []
parameters InstructionRule.add_imm =
    argument b'd' nullable_register
    ∷ argument b'a' register
    ∷ argument b'b' (immediate 11)
    ∷ optional_argument b'S' (immediate 3)
    ∷ optional_argument b'A' boolean
    ∷ optional_argument b'c' boolean
    ∷ optional_argument b'f' boolean
    ∷ []
parameters InstructionRule.sub_reg =
    argument b'd' nullable_register
    ∷ argument b'a' register
    ∷ argument b'b' register
    ∷ optional_argument b'B' boolean
    ∷ optional_argument b'f' boolean
    ∷ []
parameters InstructionRule.sub_imm =
    argument b'd' nullable_register
    ∷ argument b'a' register
    ∷ argument b'b' (immediate 11)
    ∷ optional_argument b'S' (immediate 3)
    ∷ optional_argument b'A' boolean
    ∷ optional_argument b'B' boolean
    ∷ optional_argument b'f' boolean
    ∷ []
parameters InstructionRule.mul =
    argument b'd' register
    ∷ argument b'a' register
    ∷ argument b'b' register
    ∷ optional_argument b'S' boolean
    ∷ optional_argument b'f' boolean
    ∷ []
parameters InstructionRule.div =
    argument b'd' register
    ∷ argument b'r' register
    ∷ argument b'a' register
    ∷ argument b'b' register
    ∷ optional_argument b'S' boolean
    ∷ optional_argument b'f' boolean
    ∷ []
parameters InstructionRule.and_reg =
    argument b'd' nullable_register
    ∷ argument b'a' register
    ∷ argument b'b' register
    ∷ optional_argument b'f' boolean
    ∷ []
parameters InstructionRule.and_imm =
    argument b'd' nullable_register
    ∷ argument b'a' register
    ∷ argument b'b' (immediate 11)
    ∷ optional_argument b'S' (immediate 3)
    ∷ optional_argument b'A' boolean
    ∷ optional_argument b'f' boolean
    ∷ []
parameters InstructionRule.or_reg =
    argument b'd' nullable_register
    ∷ argument b'a' register
    ∷ argument b'b' register
    ∷ optional_argument b'f' boolean
    ∷ []
parameters InstructionRule.or_imm =
    argument b'd' nullable_register
    ∷ argument b'a' register
    ∷ argument b'b' (immediate 11)
    ∷ optional_argument b'S' (immediate 3)
    ∷ optional_argument b'A' boolean
    ∷ optional_argument b'f' boolean
    ∷ []
parameters InstructionRule.xor_reg =
    argument b'd' nullable_register
    ∷ argument b'a' register
    ∷ argument b'b' register
    ∷ optional_argument b'f' boolean
    ∷ []
parameters InstructionRule.xor_imm =
    argument b'd' nullable_register
    ∷ argument b'a' register
    ∷ argument b'b' (immediate 11)
    ∷ optional_argument b'S' (immediate 3)
    ∷ optional_argument b'A' boolean
    ∷ optional_argument b'f' boolean
    ∷ []
parameters InstructionRule.shl =
    argument b'd' nullable_register
    ∷ argument b'a' register
    ∷ argument b'b' (register_or_immediate 7)
    ∷ optional_argument b'f' boolean
    ∷ []
parameters InstructionRule.shr =
    argument b'd' nullable_register
    ∷ argument b'a' register
    ∷ argument b'b' (register_or_immediate 7)
    ∷ optional_argument b'A' boolean
    ∷ optional_argument b'f' boolean
    ∷ []
parameters InstructionRule.rot =
    argument b'd' nullable_register
    ∷ argument b'a' register
    ∷ argument b'b' (register_or_immediate 7)
    ∷ optional_argument b'f' boolean
    ∷ []
parameters InstructionRule.neg =
    argument b'd' register ∷ argument b'a' register ∷ optional_argument b'f' boolean ∷ []
parameters InstructionRule.bswap =
    argument b'd' register ∷ argument b'a' register ∷ optional_argument b'f' boolean ∷ []
parameters InstructionRule.soc =
    argument b'd' register
    ∷ argument b'a' register
    ∷ argument b'b' register
    ∷ optional_argument b'B' boolean
    ∷ []
parameters InstructionRule.sof = argument b'd' register ∷ []
parameters InstructionRule.jmpa = argument b'a' register ∷ []
parameters InstructionRule.jmpr = argument b'a' (register_or_relative_immediate 22) ∷ []
parameters InstructionRule.cjmpa =
    argument b'a' register ∷ argument b'b' register ∷ argument b'C' register ∷ []
parameters InstructionRule.cjmpr =
    argument b'a' (register_or_relative_immediate 13)
    ∷ argument b'b' register
    ∷ argument b'C' register
    ∷ []
parameters InstructionRule.calla = argument b'a' register ∷ []
parameters InstructionRule.callr = argument b'a' (register_or_relative_immediate 22) ∷ []
parameters InstructionRule.ret = []
parameters InstructionRule.eret = []
parameters InstructionRule.udf = []
parameters InstructionRule.dbg = []
parameters InstructionRule.exc = argument b'a' (immediate 16) ∷ []
parameters InstructionRule.nop = []
parameters InstructionRule.ldm =
    argument b'd' register
    ∷ consumed_argument b'a' (immediate 22) next_machine_register_or_immediate
    ∷ []
parameters InstructionRule.stm =
    consumed_argument b'd' (immediate 22) next_machine_register_or_immediate
    ∷ argument b'a' register
    ∷ []
parameters InstructionRule.pseudo_cmp_reg =
    argument b'a' register ∷ argument b'b' register ∷ optional_argument b'B' boolean ∷ []
parameters InstructionRule.pseudo_cmp_imm =
    argument b'a' register
    ∷ argument b'b' (immediate 11)
    ∷ optional_argument b'S' (immediate 3)
    ∷ optional_argument b'A' boolean
    ∷ optional_argument b'B' boolean
    ∷ []
