-- ===== src/Assembler/Instructions/Allowed.antt =====
-- An argument that is read is one that its type allows.
use mathlib.Core.Path.{subst}
use mathlib.Core.Option.{some-injective}
use acca.Prelude.{ℕ, Bool, true, false, ◌||◌, Option, none, some, List, [], ◌∷◌, ◌≡◌, refl, arith}
use acca.Assembler.Outcome.{Host, Outcome, ok, exited, panicked, ok-injective}
use acca.Assembler.Syntax.{Operand}
use acca.Assembler.Immediate.{Labels}
use acca.Assembler.Registers.{Argument}
use acca.Assembler.Operands.{
  next_with, parse_register, next_register_or_null, evaluate_operand, parse_argument,
  parse_machine_register_or_immediate, byte_relative_immediate,
}
use acca.Assembler.Template.{ArgumentType, ArgumentSpec, Consumer, Pattern, Arguments}
use acca.Assembler.Template.Reading.{
  immediate_argument, truncated_argument, mapped, consume_by_type, consume, present,
}
use acca.Assembler.Template.Writing.{default_patterns}
use acca.Assembler.Instructions.Opcodes.{allows_any, takes_immediates, is_none, is_sound}

abbrev pub kind : Option Argument → Pattern
kind (some (Argument.register reg)) = Pattern.reg
kind (some (Argument.immediate value)) = Pattern.imm
kind none = Pattern.null

abbrev pub kinds : Arguments → List (ℕ × Pattern)
kinds [] = []
kinds ((name, argument) ∷ arguments) = (name, kind argument) ∷ kinds arguments

-- The argument is one that its type allows.
abbrev pub IsAllowed : ArgumentType → Option Argument → Type 0
IsAllowed ty argument = allows_any (default_patterns ty) (kind argument) ≡ true

mapped-ok :
    {A B : Type 0} (f : A → B) (o : Outcome (Option A)) {b : B}
    → mapped f o ≡ ok (some b)
    → (a : A) × (f a ≡ b)
mapped-ok f (ok none) h = cc
mapped-ok f (ok (some a)) h = (a, some-injective _ _ (ok-injective h))
mapped-ok f exited h = cc
mapped-ok f panicked h = cc

immediate_argument-IsAllowed :
    (ty : ArgumentType) (value : ℕ)
    → takes_immediates ty ≡ true
    → IsAllowed ty (some (immediate_argument ty value))
immediate_argument-IsAllowed ArgumentType.register value h = cc
immediate_argument-IsAllowed ArgumentType.nullable_register value h = cc
immediate_argument-IsAllowed ArgumentType.boolean value h = refl
immediate_argument-IsAllowed (ArgumentType.immediate width) value h = refl
immediate_argument-IsAllowed (ArgumentType.relative_immediate width) value h = refl
immediate_argument-IsAllowed (ArgumentType.register_or_immediate width) value h = refl
immediate_argument-IsAllowed (ArgumentType.register_or_relative_immediate width) value h = refl

truncated_argument-IsAllowed :
    (width : ℕ) (sign_extend : Bool) (argument : Argument)
    → allows_any
        (Pattern.reg ∷ Pattern.imm ∷ [])
        (kind (some (truncated_argument width sign_extend argument)))
      ≡ true
truncated_argument-IsAllowed width sign_extend (Argument.register reg) = refl
truncated_argument-IsAllowed width sign_extend (Argument.immediate value) = refl

consume_by_type-IsAllowed :
    (ty : ArgumentType) (labels : Labels) (current next : ℕ) (operands : List Operand)
    {argument : Argument}
    → consume_by_type ty labels current next operands ≡ ok (some argument)
    → IsAllowed ty (some argument)
unfolding consume_by_type
consume_by_type-IsAllowed ArgumentType.register labels current next operands h =
    let (reg, same) = mapped-ok Argument.register (next_with parse_register operands) h in
    subst (λ a. IsAllowed ArgumentType.register (some a)) same refl
consume_by_type-IsAllowed ArgumentType.nullable_register labels current next operands h =
    let (reg, same) = mapped-ok Argument.register (next_register_or_null operands) h in
    subst (λ a. IsAllowed ArgumentType.nullable_register (some a)) same refl
consume_by_type-IsAllowed ArgumentType.boolean labels current next operands h =
    let (value, same) =
      mapped-ok Argument.immediate
        (next_with (λ operand. evaluate_operand operand labels current none) operands) h in
    subst (λ a. IsAllowed ArgumentType.boolean (some a)) same refl
consume_by_type-IsAllowed (ArgumentType.immediate width) labels current next operands h =
    let ty = ArgumentType.immediate width in
    let (value, same) =
      mapped-ok (immediate_argument ty)
        (next_with (λ operand. evaluate_operand operand labels current none) operands) h in
    subst (λ a. IsAllowed ty (some a)) same refl
consume_by_type-IsAllowed (ArgumentType.relative_immediate width) labels current next operands h =
    let ty = ArgumentType.relative_immediate width in
    let (value, same) =
      mapped-ok (immediate_argument ty)
        (next_with (λ operand. evaluate_operand operand labels current (some next)) operands) h in
    subst (λ a. IsAllowed ty (some a)) same refl
consume_by_type-IsAllowed (ArgumentType.register_or_immediate width) labels current next operands
      h =
    let (argument, same) =
      mapped-ok (truncated_argument width false)
        (next_with (λ operand. parse_argument operand labels current none) operands) h in
    subst (λ a. IsAllowed (ArgumentType.register_or_immediate width) (some a)) same
      (truncated_argument-IsAllowed width false argument)
consume_by_type-IsAllowed (ArgumentType.register_or_relative_immediate width) labels current next
      operands h =
    let (argument, same) =
      mapped-ok (truncated_argument width true)
        (next_with (λ operand. parse_argument operand labels current (some next)) operands) h in
    subst (λ a. IsAllowed (ArgumentType.register_or_relative_immediate width) (some a)) same
      (truncated_argument-IsAllowed width true argument)

module _ ⦃host : Host⦄ where
  pub consume-IsAllowed :
      (spec : ArgumentSpec) (labels : Labels) (current next : ℕ) (operands : List Operand)
      (function_ : Option Consumer) {argument : Argument}
      → (takes_immediates spec.ty || is_none function_) ≡ true
      → consume function_ spec.ty labels current next operands ≡ ok (some argument)
      → IsAllowed spec.ty (some argument)
  unfolding consume
  consume-IsAllowed spec labels current next operands none s h =
      consume_by_type-IsAllowed spec.ty labels current next operands h
  consume-IsAllowed spec labels current next operands (some Consumer.next_byte_relative_immediate) s
        h =
      let (value, same) =
        mapped-ok (immediate_argument spec.ty)
          (next_with (byte_relative_immediate labels current) operands) h in
      subst (λ a. IsAllowed spec.ty (some a)) same
        (immediate_argument-IsAllowed spec.ty value (ground (arith, s)))
  consume-IsAllowed spec labels current next operands
        (some Consumer.next_machine_register_or_immediate) s h =
      let (value, same) =
        mapped-ok (immediate_argument spec.ty)
          (next_with (λ operand. parse_machine_register_or_immediate operand labels current)
            operands)
          h in
      subst (λ a. IsAllowed spec.ty (some a)) same
        (immediate_argument-IsAllowed spec.ty value (ground (arith, s)))

pub missing-IsAllowed :
    (ty : ArgumentType) {argument : Option Argument}
    → present none ty none ≡ ok argument
    → IsAllowed ty argument
missing-IsAllowed ArgumentType.nullable_register h =
    subst (IsAllowed ArgumentType.nullable_register) (ok-injective h) refl
missing-IsAllowed ArgumentType.register h = cc
missing-IsAllowed ArgumentType.boolean h = cc
missing-IsAllowed (ArgumentType.immediate width) h = cc
missing-IsAllowed (ArgumentType.relative_immediate width) h = cc
missing-IsAllowed (ArgumentType.register_or_immediate width) h = cc
missing-IsAllowed (ArgumentType.register_or_relative_immediate width) h = cc

pub sound-parts :
    (spec : ArgumentSpec)
    → is_sound spec ≡ true
    → ((takes_immediates spec.ty || is_none spec.default) ≡ true)
      × ((takes_immediates spec.ty || is_none spec.consumer_function) ≡ true)
sound-parts spec h = (ground (arith, h), ground (arith, h))
