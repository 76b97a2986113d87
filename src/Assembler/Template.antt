-- ===== src/Assembler/Template.antt =====
-- The code that `instruction_helper` of acca-as-proc-macro/src/lib.rs generates for an
-- instruction, with `instruction_body!` and its companions of acca-as/src/main.rs.
use acca.Prelude.{
  ℕ, ◌^◌, Bool, true, false, ◌&&◌, ◌||◌, not, Option, none, some, List, [], ◌∷◌, ◌++◌, map, ◌==◌,
  if◌then◌else◌,
}
use acca.Word.{wrapping_sub}
use acca.Encoding.Scan.{InstructionBit, encode}
use acca.Assembler.Outcome.{Host, Outcome, ok, panicked, ◌>>=◌, unwrap}
use acca.Assembler.Syntax.{Operand, Suffix}
use acca.Assembler.Immediate.{Labels, truncate_immediate}
use acca.Assembler.Registers.{
  Size, size_code, Condition, condition_code, if_none, Register, Argument, map_immediate,
  common_register_size,
}
use acca.Assembler.Operands.{
  parse_register, next_register_or_null, next_instr_size, next_instr_condition,
  next_instr_condition_and_size, parse_argument, evaluate_operand,
  parse_machine_register_or_immediate, byte_relative_immediate, next_with,
}
pub mod Reading
pub mod Writing

pub data Modifier : Type 0 where
  absent optional required : Modifier

pub data ArgumentType : Type 0 where
  register nullable_register boolean : ArgumentType
  immediate relative_immediate : ℕ → ArgumentType
  register_or_immediate register_or_relative_immediate : ℕ → ArgumentType

-- The consumer functions that instructions name.
pub data Consumer : Type 0 where
  next_byte_relative_immediate next_machine_register_or_immediate : Consumer

-- An argument; its name is the code of its letter.
pub record ArgumentSpec : Type 0 where
  pub name : ℕ
  pub ty : ArgumentType
  pub default : Option ℕ
  pub consumer_function : Option Consumer

-- What `instruction_match_pattern!` accepts.
pub data Pattern : Type 0 where
  reg null imm : Pattern

-- One arm of a body in braces: the arguments' patterns, the sizes that it computes and from which
-- arguments, and the encoding.
pub record Arm : Type 0 where
  pub patterns : List (ℕ × List Pattern)
  pub sizes : List (ℕ × List ℕ)
  pub encoding : List InstructionBit

pub data Body : Type 0 where
  bracketed : List InstructionBit → Body
  braced : List Arm → Body

pub record Template : Type 0 where
  pub condition_mod : Modifier
  pub size_mod : Modifier
  pub arguments : List ArgumentSpec
  pub body : Body

-- The variables that hold the arguments.
abbrev pub Arguments : Type 0
Arguments = List (ℕ × Option Argument)

abbrev pub Variables : Type 0
Variables = List (ℕ × ℕ)
