-- ===== src/Assembler/Template/Writing.antt =====
-- How an instruction's block writes its word: `instruction_body!` and its companions of
-- acca-as/src/main.rs, and the block that `instruction_helper` generates around them.
use acca.Prelude.{
  ℕ, Bool, true, false, ◌&&◌, ◌||◌, Option, none, some, List, [], ◌∷◌, ◌++◌, map, ◌==◌,
  if◌then◌else◌,
}
use acca.Word.{wrapping_sub}
use acca.Encoding.Scan.{encode}
use acca.Assembler.Outcome.{Host, Outcome, ok, panicked, ◌>>=◌, unwrap}
use acca.Assembler.Syntax.{Operand, Suffix}
use acca.Assembler.Immediate.{Labels}
use acca.Assembler.Registers.{
  Size, size_code, Condition, condition_code, if_none, Argument, common_register_size,
}
use acca.Assembler.Operands.{next_instr_size, next_instr_condition, next_instr_condition_and_size}
use acca.Assembler.Template.{
  Modifier, absent, optional, required, ArgumentType, ArgumentSpec, Pattern, Arm, Body, bracketed,
  braced, Template, Arguments, Variables,
}
use acca.Assembler.Template.Reading.{read_arguments}

abbrev pub argument_of : Arguments → ℕ → Option Argument
argument_of [] name = none
argument_of ((other, argument) ∷ rest) name =
    if other == name then argument else argument_of rest name

abbrev pub accepts : Pattern → Option Argument → Bool
accepts Pattern.reg (some (Argument.register _)) = true
accepts Pattern.null none = true
accepts Pattern.imm (some (Argument.immediate _)) = true
accepts _ _ = false

abbrev pub accepts_any : List Pattern → Option Argument → Bool
accepts_any [] argument = false
accepts_any (pattern_ ∷ patterns) argument =
    accepts pattern_ argument || accepts_any patterns argument

-- `matches!` on each argument that the arm names.
abbrev pub accepts_all : List (ℕ × List Pattern) → Arguments → Bool
accepts_all [] arguments = true
accepts_all ((name, patterns) ∷ rest) arguments =
    accepts_any patterns (argument_of arguments name) && accepts_all rest arguments

-- `instruction_match_body!`
abbrev pub argument_value : Option Argument → ℕ
argument_value (some (Argument.register found)) = found.id
argument_value (some (Argument.immediate value)) = value
argument_value none = 31

abbrev pub argument_values : List (ℕ × List Pattern) → Arguments → Variables
argument_values [] arguments = []
argument_values ((name, patterns) ∷ rest) arguments =
    (name, argument_value (argument_of arguments name)) ∷ argument_values rest arguments

abbrev pub value_of : Variables → ℕ → ℕ
value_of [] name = 0
value_of ((other, value) ∷ rest) name = if other == name then value else value_of rest name

-- The patterns of the argument's own type.
abbrev pub default_patterns : ArgumentType → List Pattern
default_patterns ArgumentType.register = Pattern.reg ∷ []
default_patterns ArgumentType.nullable_register = Pattern.reg ∷ Pattern.null ∷ []
default_patterns (ArgumentType.immediate width) = Pattern.imm ∷ []
default_patterns (ArgumentType.relative_immediate width) = Pattern.imm ∷ []
default_patterns ArgumentType.boolean = Pattern.imm ∷ []
default_patterns (ArgumentType.register_or_immediate width) = Pattern.reg ∷ Pattern.imm ∷ []
default_patterns (ArgumentType.register_or_relative_immediate width) =
    Pattern.reg ∷ Pattern.imm ∷ []

abbrev pub default_pattern : List ArgumentSpec → List (ℕ × List Pattern)
default_pattern [] = []
default_pattern (spec ∷ specs) = (spec.name, default_patterns spec.ty) ∷ default_pattern specs

-- `let $size_name = common_register_size(&[$($reg),+], None) as u64`
unfoldable pub size_variables : List (ℕ × List ℕ) → Arguments → Outcome Variables
size_variables [] arguments = ok []
size_variables ((name, registers) ∷ rest) arguments = do
  size ← common_register_size (map (argument_of arguments) registers) none
  variables ← size_variables rest arguments
  ok ((name, size_code size) ∷ variables)

-- The word of an arm that accepts the arguments.
unfoldable pub arm_word : Arm → Arguments → Variables → Outcome ℕ
arm_word arm arguments additional = do
  sizes ← size_variables arm.sizes arguments
  ok (
      encode arm.encoding
        (value_of (sizes ++ (argument_values arm.patterns arguments ++ additional))))

-- `instruction_body!` on a body in braces: each arm that accepts the arguments writes its word.
unfoldable pub arm_words : List Arm → Arguments → Variables → Outcome (List ℕ)
arm_words [] arguments additional = ok []
arm_words (arm ∷ arms) arguments additional = elim (accepts_all arm.patterns arguments) [
  | false ↦ arm_words arms arguments additional
  | true ↦ do
    word ← arm_word arm arguments additional
    words ← arm_words arms arguments additional
    ok (word ∷ words)
]

unfoldable pub body_words : Body → List ArgumentSpec → Arguments → Variables → Outcome (List ℕ)
body_words (braced arms) specs arguments additional = arm_words arms arguments additional
body_words (bracketed encoding) specs arguments additional =
    let patterns = default_pattern specs in
    if accepts_all patterns arguments
    then ok (encode encoding (value_of (argument_values patterns arguments ++ additional)) ∷ [])
    else panicked

-- `mod_parse`: the suffixes that are read.
unfoldable pub read_suffixes :
    Modifier → Modifier → List Suffix → Outcome (Option Condition × Option Size)
read_suffixes absent absent suffixes = ok (none, none)
read_suffixes absent _ suffixes = next_instr_size suffixes >>= λ size. ok (none, size)
read_suffixes _ absent suffixes = next_instr_condition suffixes >>= λ cond. ok (cond, none)
read_suffixes _ _ suffixes = next_instr_condition_and_size suffixes

-- `cond_unwrap`
unfoldable pub condition_variables : Modifier → Option Condition → Outcome Variables
condition_variables absent cond = ok []
condition_variables required cond = unwrap cond >>= λ found. ok ((b'c', condition_code found) ∷ [])
condition_variables optional none = ok ((b'c', condition_code if_none) ∷ [])
condition_variables optional (some cond) = ok ((b'c', condition_code cond) ∷ [])

abbrev pub argument_list : Arguments → List (Option Argument)
argument_list [] = []
argument_list ((name, argument) ∷ rest) = argument ∷ argument_list rest

-- `size_unwrap`
unfoldable pub operation_size_variables : Modifier → Option Size → Arguments → Outcome Variables
operation_size_variables absent size arguments = ok []
operation_size_variables required size arguments = do
  found ← unwrap size
  common ← common_register_size (argument_list arguments) (some found)
  ok ((b's', size_code common) ∷ [])
operation_size_variables optional size arguments = do
  common ← common_register_size (argument_list arguments) size
  ok ((b's', size_code common) ∷ [])

-- The block of an instruction, with `addr` the address after it: the words that it writes.
unfoldable pub instruction :
    ⦃host : Host⦄ → Template → List Suffix → List Operand → Labels → ℕ → Outcome (List ℕ)
instruction template suffixes operands labels addr = do
  (cond, size) ← read_suffixes template.condition_mod template.size_mod suffixes
  arguments ← read_arguments template.arguments labels (wrapping_sub addr 4) addr operands
  c ← condition_variables template.condition_mod cond
  s ← operation_size_variables template.size_mod size arguments
  body_words template.body template.arguments arguments (s ++ c)
