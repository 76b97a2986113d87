-- ===== src/Assembler/Instructions/Kinds.antt =====
-- The arguments that an instruction reads are of the kinds that its parameters allow.
use mathlib.Core.Path.{subst}
use mathlib.Core.Bool.{and-eq-true_iff}
use acca.Prelude.{
  ℕ, Bool, true, ◌||◌, Option, none, some, List, [], ◌∷◌, ◌≡◌, refl, ap, ◌∙◌, all, arith, inl, inr,
  Bool-cases,
}
use acca.Assembler.Outcome.{Host, ok, ok->>=, ok-injective}
use acca.Assembler.Syntax.{Operand}
use acca.Assembler.Immediate.{Labels}
use acca.Assembler.Registers.{Argument}
use acca.Assembler.Template.{ArgumentType, ArgumentSpec, Pattern, Arguments}
use acca.Assembler.Template.Reading.{consume, or_default, present, rest_of, read_arguments}
use acca.Assembler.Template.Writing.{default_patterns}
use acca.Assembler.Instructions.Opcodes.{
  same_pattern, allows_any, all_kinds, takes_immediates, is_none, is_sound,
}
use acca.Assembler.Instructions.Allowed.{
  kind, kinds, IsAllowed, missing-IsAllowed, consume-IsAllowed, sound-parts,
}

same_pattern_lem : (p k : Pattern) → same_pattern p k ≡ true → p ≡ k
same_pattern_lem Pattern.reg Pattern.reg h = refl
same_pattern_lem Pattern.null Pattern.null h = refl
same_pattern_lem Pattern.imm Pattern.imm h = refl
same_pattern_lem Pattern.reg Pattern.null h = cc
same_pattern_lem Pattern.reg Pattern.imm h = cc
same_pattern_lem Pattern.null Pattern.reg h = cc
same_pattern_lem Pattern.null Pattern.imm h = cc
same_pattern_lem Pattern.imm Pattern.reg h = cc
same_pattern_lem Pattern.imm Pattern.null h = cc

-- A test of all the allowed kinds is passed by each of them.
all-allowed :
    (patterns : List Pattern) (k : Pattern) (test : Pattern → Bool)
    → all test patterns ≡ true
    → allows_any patterns k ≡ true
    → test k ≡ true
all-allowed [] k test h at = cc
all-allowed (pattern_ ∷ patterns) k test h at =
    let (here, rest) = (and-eq-true_iff (test pattern_) (all test patterns)).0 h in
    elim (Bool-cases (same_pattern pattern_ k)) [
      | inl same ↦ subst (λ p. test p ≡ true) (same_pattern_lem pattern_ k same) here
      | inr other ↦ all-allowed patterns k test rest (ground (arith, at, other))
    ]

-- With its default, and behind the test that it is there, the argument is allowed too.
present-IsAllowed :
    (default : Option ℕ) (ty : ArgumentType) (consumed : Option Argument)
    {argument : Option Argument}
    → ((found : Argument) → consumed ≡ some found → IsAllowed ty (some found))
    → (takes_immediates ty || is_none default) ≡ true
    → present default ty (or_default default consumed) ≡ ok argument
    → IsAllowed ty argument
present-IsAllowed none ty none allowed s h = missing-IsAllowed ty h
present-IsAllowed none ty (some found) allowed s h =
    subst (IsAllowed ty) (ok-injective h) (allowed found refl)
present-IsAllowed (some default) ty none allowed s h =
    subst (IsAllowed ty) (ok-injective h) (ground (arith, s))
present-IsAllowed (some default) ty (some found) allowed s h =
    subst (IsAllowed ty) (ok-injective h) (allowed found refl)

-- The arguments of an instruction are of kinds that its parameters allow.
pub read_arguments-kinds :
    ⦃host : Host⦄ (specs : List ArgumentSpec) (labels : Labels) (current next : ℕ)
    (operands : List Operand) (test : List (ℕ × Pattern) → Bool) {arguments : Arguments}
    → all is_sound specs ≡ true
    → read_arguments specs labels current next operands ≡ ok arguments
    → all_kinds specs test ≡ true
    → test (kinds arguments) ≡ true
unfolding read_arguments
read_arguments-kinds [] labels current next operands test sound h t =
    subst (λ arguments. test (kinds arguments) ≡ true) (ok-injective h) t
read_arguments-kinds (spec ∷ specs) labels current next operands test sound h t =
    let (consumed, first, presence) =
      ok->>= (consume spec.consumer_function spec.ty labels current next operands) h in
    let (argument, second, others) =
      ok->>= (present spec.default spec.ty (or_default spec.default consumed)) presence in
    let (arguments, third, result) =
      ok->>= (read_arguments specs labels current next (rest_of operands)) others in
    let (here, below) = (and-eq-true_iff (is_sound spec) (all is_sound specs)).0 sound in
    let (defaults, consumers) = sound-parts spec here in
    let allowed =
      present-IsAllowed spec.default spec.ty consumed
        (λ found same.
          consume-IsAllowed spec labels current next operands spec.consumer_function consumers
            (first ∙ ap ok same))
        defaults second in
    let tested =
      all-allowed (default_patterns spec.ty) (kind argument)
        (λ k. all_kinds specs (λ ks. test ((spec.name, k) ∷ ks))) t allowed in
    subst (λ as_. test (kinds as_) ≡ true) (ok-injective result)
      (read_arguments-kinds specs labels current next (rest_of operands)
        (λ ks. test ((spec.name, kind argument) ∷ ks)) below third tested)
