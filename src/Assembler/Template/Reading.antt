-- ===== src/Assembler/Template/Reading.antt =====
-- How an instruction's block reads its arguments: the calls that `instruction_helper` of
-- acca-as-proc-macro/src/lib.rs generates, and the closures of acca-as/src/main.rs they call.
use acca.Prelude.{ℕ, Bool, true, false, Option, none, some, List, [], ◌∷◌, if◌then◌else◌}
use acca.Assembler.Outcome.{Host, Outcome, ok, panicked, ◌>>=◌}
use acca.Assembler.Syntax.{Operand}
use acca.Assembler.Immediate.{Labels, truncate_immediate}
use acca.Assembler.Registers.{Argument, map_immediate}
use acca.Assembler.Operands.{
  parse_register, next_register_or_null, parse_argument, evaluate_operand,
  parse_machine_register_or_immediate, byte_relative_immediate, next_with,
}
use acca.Assembler.Template.{ArgumentType, Consumer, ArgumentSpec, Arguments}

-- The argument for an immediate of the type; the other types' code has no immediate.
abbrev pub immediate_argument : ArgumentType → ℕ → Argument
immediate_argument (ArgumentType.immediate width) value =
    Argument.immediate (truncate_immediate value width false)
immediate_argument (ArgumentType.relative_immediate width) value =
    Argument.immediate (truncate_immediate value width true)
immediate_argument _ value = Argument.immediate value

abbrev pub truncated_argument : ℕ → Bool → Argument → Argument
truncated_argument width sign_extend argument =
    map_immediate (λ value. truncate_immediate value width sign_extend) argument

abbrev pub option_map : {A B : Type 0} → (A → B) → Option A → Option B
option_map f none = none
option_map f (some a) = some (f a)

abbrev pub mapped : {A B : Type 0} → (A → B) → Outcome (Option A) → Outcome (Option B)
mapped f found = found >>= λ value. ok (option_map f value)

-- The expression that reads an argument by its type, at the address `current` of the instruction;
-- `next` is the address after it.
unfoldable pub consume_by_type :
    ArgumentType → Labels → ℕ → ℕ → List Operand → Outcome (Option Argument)
consume_by_type ArgumentType.register labels current next operands =
    mapped Argument.register (next_with parse_register operands)
consume_by_type ArgumentType.nullable_register labels current next operands =
    mapped Argument.register (next_register_or_null operands)
consume_by_type (ArgumentType.immediate width) labels current next operands =
    mapped (immediate_argument (ArgumentType.immediate width))
      (next_with (λ operand. evaluate_operand operand labels current none) operands)
consume_by_type (ArgumentType.relative_immediate width) labels current next operands =
    mapped (immediate_argument (ArgumentType.relative_immediate width))
      (next_with (λ operand. evaluate_operand operand labels current (some next)) operands)
consume_by_type ArgumentType.boolean labels current next operands =
    mapped Argument.immediate
      (next_with (λ operand. evaluate_operand operand labels current none) operands)
consume_by_type (ArgumentType.register_or_immediate width) labels current next operands =
    mapped (truncated_argument width false)
      (next_with (λ operand. parse_argument operand labels current none) operands)
consume_by_type (ArgumentType.register_or_relative_immediate width) labels current next operands =
    mapped (truncated_argument width true)
      (next_with (λ operand. parse_argument operand labels current (some next)) operands)

module _ ⦃host : Host⦄ where
  unfoldable pub consume :
      Option Consumer → ArgumentType → Labels → ℕ → ℕ → List Operand → Outcome (Option Argument)
  consume none ty labels current next operands = consume_by_type ty labels current next operands
  consume (some Consumer.next_byte_relative_immediate) ty labels current next operands =
      mapped (immediate_argument ty) (next_with (byte_relative_immediate labels current) operands)
  consume (some Consumer.next_machine_register_or_immediate) ty labels current next operands =
      mapped (immediate_argument ty)
        (next_with (λ operand. parse_machine_register_or_immediate operand labels current) operands)

-- `.or(Some(Argument::Immediate(def)))`
abbrev pub or_default : Option ℕ → Option Argument → Option Argument
or_default (some default) none = some (Argument.immediate default)
or_default _ argument = argument

abbrev pub is_nullable : ArgumentType → Bool
is_nullable ArgumentType.nullable_register = true
is_nullable _ = false

-- `expect`, for an argument with no default that is not nullable.
abbrev pub present : Option ℕ → ArgumentType → Option Argument → Outcome (Option Argument)
present none ty none = if is_nullable ty then ok none else panicked
present _ ty argument = ok argument

abbrev pub rest_of : List Operand → List Operand
rest_of [] = []
rest_of (operand ∷ rest) = rest

unfoldable pub read_arguments :
    ⦃host : Host⦄ → List ArgumentSpec → Labels → ℕ → ℕ → List Operand → Outcome Arguments
read_arguments [] labels current next operands = ok []
read_arguments (spec ∷ specs) labels current next operands = do
  consumed ← consume spec.consumer_function spec.ty labels current next operands
  argument ← present spec.default spec.ty (or_default spec.default consumed)
  rest ← read_arguments specs labels current next (rest_of operands)
  ok ((spec.name, argument) ∷ rest)
