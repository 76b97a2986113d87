-- ===== src/Assembler/Instructions.antt =====
-- The instructions of `instructions!` in acca-as/src/main.rs.
pub mod Rules
pub mod Parameters
pub mod Bodies
pub mod Opcodes
pub mod Allowed
pub mod Kinds
pub mod Encoded
pub mod Words
pub mod Errors
pub mod Jump
pub mod Run
pub mod Rounds
pub mod Forever
use acca.Prelude.{ℕ, List}
use acca.Assembler.Outcome.{Host, Outcome, exited}
use acca.Assembler.Syntax.{Suffix, Operand}
use acca.Assembler.Immediate.{Labels}
use acca.Assembler.Template.{Template}
use acca.Assembler.Template.Writing.{instruction}
use acca.Assembler.Instructions.Rules.{InstructionRule}
use acca.Assembler.Instructions.Parameters.{condition_modifier, size_modifier, parameters}
use acca.Assembler.Instructions.Bodies.{body}

abbrev pub template : InstructionRule → Template
template rule = record {
  condition_mod = condition_modifier rule;
  size_mod = size_modifier rule;
  arguments = parameters rule;
  body = body rule;
}

-- The pair of an instruction: one of the rules, or `instr_unknown`.
pub data Instr : Type 0 where
  instr : InstructionRule → List Suffix → List Operand → Instr
  instr_unknown : Instr

-- The `match` on the rule, with `addr` the address after the instruction: the words that are
-- written.
unfoldable pub instruction_words : ⦃host : Host⦄ → Instr → Labels → ℕ → Outcome (List ℕ)
instruction_words (instr rule suffixes operands) labels addr =
    instruction (template rule) suffixes operands labels addr
instruction_words instr_unknown labels addr = exited
