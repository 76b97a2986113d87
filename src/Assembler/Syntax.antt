-- ===== src/Assembler/Syntax.antt =====
-- What the grammar acca-as/src/grammar.pest hands to main.rs: one type for the pairs of each
-- rule, with the text that the code reads. The parser itself is the pest crate's.
use Prim.Native.String.{String}
use acca.Prelude.{ℕ, List, Option}

pub data LiteralRule : Type 0 where
  binary_literal octal_literal decimal_literal hex_literal : LiteralRule

-- `text` is `as_str`, as codes of characters.
pub record Literal : Type 0 where
  pub rule : LiteralRule
  pub text : List ℕ

pub data PrefixRule : Type 0 where
  neg not : PrefixRule

pub data InfixRule : Type 0 where
  or xor and shift_left shift_right_logical shift_right_arithmetic add sub mul div rem : InfixRule

-- An `immediate`, grouped by the operators' precedence as `PRATT` groups it.
pub data Immediate : Type 0 where
  integer : Literal → Immediate
  boolean machine_register_literal ident : String → Immediate
  current_address : Immediate
  normal_char escaped_char : ℕ → Immediate
  immediate : Immediate → Immediate
  prefix : PrefixRule → Immediate → Immediate
  infix_op : Immediate → InfixRule → Immediate → Immediate

pub data RegisterText : Type 0 where
  register_number : List ℕ → RegisterText
  register_name : String → RegisterText

pub record RegisterPair : Type 0 where
  pub num_or_name : RegisterText
  pub size : Option String

-- A pair among an instruction's operands.
pub data Operand : Type 0 where
  register register_no_size : RegisterPair → Operand
  null : Operand
  immediate : Immediate → Operand
  machine_register : String → Operand

-- A pair within an instruction's name.
pub data Suffix : Type 0 where
  size_suffix condition_suffix : String → Suffix
