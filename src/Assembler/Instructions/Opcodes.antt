-- ===== src/Assembler/Instructions/Opcodes.antt =====
-- The emulator's match arms that an instruction's block is to write words for.
use acca.Prelude.{
  ℕ, Bool, true, false, ◌&&◌, ◌||◌, Option, none, some, List, [], ◌∷◌, ◌≡◌, refl, all, ◌==◌,
  if◌then◌else◌,
}
use acca.Encoding.Scan.{InstructionBit}
use acca.Encoding.Refinement.{refines}
use acca.Emu.Instruction.Encodings.{Opcode, encoding}
use acca.Assembler.Template.{ArgumentType, ArgumentSpec, Pattern, Arm, Body, bracketed, braced}
use acca.Assembler.Template.Writing.{default_patterns}
use acca.Assembler.Instructions.Rules.{InstructionRule}
use acca.Assembler.Instructions.Parameters.{parameters}
use acca.Assembler.Instructions.Bodies.{body}

abbrev pub opcodes_of : InstructionRule → List Opcode
opcodes_of InstructionRule.pushs = Opcode.pushs ∷ []
opcodes_of InstructionRule.pushp = Opcode.pushp ∷ []
opcodes_of InstructionRule.pops = Opcode.pops ∷ []
opcodes_of InstructionRule.popp = Opcode.popp ∷ []
opcodes_of InstructionRule.lds = Opcode.lds ∷ []
opcodes_of InstructionRule.ldp = Opcode.ldp ∷ []
opcodes_of InstructionRule.sts = Opcode.sts ∷ []
opcodes_of InstructionRule.stp = Opcode.stp ∷ []
opcodes_of InstructionRule.ldi = Opcode.ldi ∷ []
opcodes_of InstructionRule.ldr = Opcode.ldr ∷ []
opcodes_of InstructionRule.copy = Opcode.copy ∷ []
opcodes_of InstructionRule.add_reg = Opcode.add_reg ∷ []
opcodes_of InstructionRule.add_imm = Opcode.add_imm ∷ []
opcodes_of InstructionRule.sub_reg = Opcode.sub_reg ∷ []
opcodes_of InstructionRule.sub_imm = Opcode.sub_imm ∷ []
opcodes_of InstructionRule.mul = Opcode.mul ∷ []
opcodes_of InstructionRule.div = Opcode.div ∷ []
opcodes_of InstructionRule.and_reg = Opcode.and_reg ∷ []
opcodes_of InstructionRule.and_imm = Opcode.and_imm ∷ []
opcodes_of InstructionRule.or_reg = Opcode.or_reg ∷ []
opcodes_of InstructionRule.or_imm = Opcode.or_imm ∷ []
opcodes_of InstructionRule.xor_reg = Opcode.xor_reg ∷ []
opcodes_of InstructionRule.xor_imm = Opcode.xor_imm ∷ []
opcodes_of InstructionRule.shl = Opcode.shl_reg ∷ Opcode.shl_imm ∷ []
opcodes_of InstructionRule.shr = Opcode.shr_reg ∷ Opcode.shr_imm ∷ []
opcodes_of InstructionRule.rot = Opcode.rot_reg ∷ Opcode.rot_imm ∷ []
opcodes_of InstructionRule.neg = Opcode.neg ∷ []
opcodes_of InstructionRule.bswap = Opcode.bswap ∷ []
opcodes_of InstructionRule.soc = Opcode.soc ∷ []
opcodes_of InstructionRule.sof = Opcode.sof ∷ []
opcodes_of InstructionRule.jmpa = Opcode.jmpa ∷ []
opcodes_of InstructionRule.jmpr = Opcode.jmpr_reg ∷ Opcode.jmpr_imm ∷ []
opcodes_of InstructionRule.cjmpa = Opcode.cjmpa ∷ []
opcodes_of InstructionRule.cjmpr = Opcode.cjmpr_reg ∷ Opcode.cjmpr_imm ∷ []
opcodes_of InstructionRule.calla = Opcode.calla ∷ []
opcodes_of InstructionRule.callr = Opcode.callr_reg ∷ Opcode.callr_imm ∷ []
opcodes_of InstructionRule.ret = Opcode.ret ∷ []
opcodes_of InstructionRule.eret = Opcode.eret ∷ []
opcodes_of InstructionRule.udf = Opcode.udf ∷ []
opcodes_of InstructionRule.dbg = Opcode.dbg ∷ []
opcodes_of InstructionRule.exc = Opcode.exc ∷ []
opcodes_of InstructionRule.nop = Opcode.nop ∷ []
opcodes_of InstructionRule.ldm = Opcode.ldm ∷ []
opcodes_of InstructionRule.stm = Opcode.stm ∷ []
opcodes_of InstructionRule.pseudo_cmp_reg = Opcode.sub_reg ∷ []
opcodes_of InstructionRule.pseudo_cmp_imm = Opcode.sub_imm ∷ []

-- The pattern that an argument matches.
abbrev pub same_pattern : Pattern → Pattern → Bool
same_pattern Pattern.reg Pattern.reg = true
same_pattern Pattern.null Pattern.null = true
same_pattern Pattern.imm Pattern.imm = true
same_pattern _ _ = false

abbrev pub kind_of : List (ℕ × Pattern) → ℕ → Pattern
kind_of [] name = Pattern.null
kind_of ((other, kind) ∷ rest) name = if other == name then kind else kind_of rest name

abbrev pub allows_any : List Pattern → Pattern → Bool
allows_any [] kind = false
allows_any (pattern_ ∷ patterns) kind = same_pattern pattern_ kind || allows_any patterns kind

abbrev pub allows_all : List (ℕ × List Pattern) → List (ℕ × Pattern) → Bool
allows_all [] kinds = true
allows_all ((name, patterns) ∷ rest) kinds =
    allows_any patterns (kind_of kinds name) && allows_all rest kinds

-- The encodings of the arms that accept arguments of these kinds.
abbrev pub chosen_arms : List Arm → List (ℕ × Pattern) → List (List InstructionBit)
chosen_arms [] kinds = []
chosen_arms (arm ∷ arms) kinds =
    let rest = chosen_arms arms kinds in
    if allows_all arm.patterns kinds then arm.encoding ∷ rest else rest

abbrev pub chosen : Body → List ArgumentSpec → List (ℕ × Pattern) → List (List InstructionBit)
chosen (braced arms) specs kinds = chosen_arms arms kinds
chosen (bracketed bits) specs kinds = bits ∷ []

-- The encoding fixes at least the bits of one of the match arms.
abbrev pub refines_any : List InstructionBit → List Opcode → Bool
refines_any bits [] = false
refines_any bits (op ∷ ops) = refines bits (encoding op) || refines_any bits ops

abbrev pub single : List (List InstructionBit) → List Opcode → Bool
single (bits ∷ []) ops = refines_any bits ops
single _ ops = false

-- A test of all the kinds that arguments can have.
abbrev pub all_kinds : List ArgumentSpec → (List (ℕ × Pattern) → Bool) → Bool
all_kinds [] test = test []
all_kinds (spec ∷ specs) test =
    all (λ kind. all_kinds specs (λ kinds. test ((spec.name, kind) ∷ kinds)))
      (default_patterns spec.ty)

-- For arguments of whatever kinds there is one encoding, and it is one of the match arms'.
pub all_kinds-single :
    (rule : InstructionRule)
    → all_kinds
        (parameters rule)
        (λ kinds. single (chosen (body rule) (parameters rule) kinds) (opcodes_of rule))
      ≡ true
unfolding parameters body encoding
all_kinds-single InstructionRule.pushs = refl
all_kinds-single _ = refl

abbrev pub takes_immediates : ArgumentType → Bool
takes_immediates ty = allows_any (default_patterns ty) Pattern.imm

abbrev pub is_none : {A : Type 0} → Option A → Bool
is_none none = true
is_none (some a) = false

-- Only an argument that may be an immediate has a default or a consumer function.
abbrev pub is_sound : ArgumentSpec → Bool
is_sound spec = takes_immediates spec.ty || (is_none spec.default && is_none spec.consumer_function)

pub parameters_sound : (rule : InstructionRule) → all is_sound (parameters rule) ≡ true
unfolding parameters
parameters_sound InstructionRule.pushs = refl
parameters_sound _ = refl
