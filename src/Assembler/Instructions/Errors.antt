-- ===== src/Assembler/Instructions/Errors.antt =====
-- Instructions that cannot be assembled.
use acca.Prelude.{ℕ, Bool, true, false, Option, none, List, [], ◌∷◌, ◌≡◌, refl, sym, ap, ◌∙◌}
use mathlib.Core.Bool.{false≢true}
use acca.Word.{wrapping_sub}
use acca.Assembler.Outcome.{Host, Outcome, ok, panicked, ok->>=, ok-injective}
use acca.Assembler.Syntax.{Operand, RegisterPair, Suffix, size_suffix, condition_suffix}
use acca.Assembler.Immediate.{Labels}
use acca.Assembler.Registers.{Size, Condition}
use acca.Assembler.Operands.{parse_argument, next_instr_condition, next_instr_condition_and_size}
use acca.Assembler.Template.{Modifier, absent, optional, required, Variables}
use acca.Assembler.Template.Reading.{consume, consume_by_type, read_arguments}
use acca.Assembler.Template.Writing.{instruction, read_suffixes, condition_variables}
use acca.Assembler.Instructions.{Instr, instr, instruction_words}
use acca.Assembler.Instructions.Rules.{InstructionRule}
use acca.Assembler.Instructions.Parameters.{condition_modifier, size_modifier, parameters}

abbrev pub IsAssembled : ⦃host : Host⦄ → Instr → Labels → ℕ → Type 0
IsAssembled i labels addr = (words : List ℕ) × (instruction_words i labels addr ≡ ok words)

abbrev pub starts_with_condition : List Suffix → Bool
starts_with_condition (condition_suffix text ∷ suffixes) = true
starts_with_condition _ = false

missing :
    {cond : Option Condition} {size : Option Size} {c : Variables}
    → ◌≡◌ {A = Outcome (Option Condition × Option Size)} (ok (none, none)) (ok (cond, size))
    → condition_variables required cond ≡ ok c
    → ⊥
unfolding condition_variables
missing same found =
    let none_read = ap (λ (mods : Option Condition × Option Size). mods.0) (ok-injective same) in
    let panics = ap (condition_variables required) none_read in cc

no_condition :
    (size_mod : Modifier) (suffixes : List Suffix) {cond : Option Condition} {size : Option Size}
    {c : Variables}
    → starts_with_condition suffixes ≡ false
    → read_suffixes required size_mod suffixes ≡ ok (cond, size)
    → condition_variables required cond ≡ ok c
    → ⊥
unfolding read_suffixes condition_variables next_instr_condition next_instr_condition_and_size
no_condition absent [] h first second = missing first second
no_condition optional [] h first second = missing first second
no_condition required [] h first second = missing first second
no_condition absent (size_suffix text ∷ suffixes) h first second = cc
no_condition optional (size_suffix text ∷ suffixes) h first second = cc
no_condition required (size_suffix text ∷ suffixes) h first second = cc
no_condition size_mod (condition_suffix text ∷ suffixes) h first second =
    absurd (false≢true (sym h))

-- The instructions with a register or a relative immediate.
abbrev pub is_relative : InstructionRule → Bool
is_relative InstructionRule.jmpr = true
is_relative InstructionRule.cjmpr = true
is_relative InstructionRule.callr = true
is_relative _ = false

module _ ⦃host : Host⦄ where
  -- An instruction that requires a condition is not assembled when its suffixes do not start with a
  -- condition.
  pub no_condition-IsAssembled :
      (rule : InstructionRule) (suffixes : List Suffix) (operands : List Operand) (labels : Labels)
      (addr : ℕ)
      → condition_modifier rule ≡ required
      → starts_with_condition suffixes ≡ false
      → ¬ IsAssembled (instr rule suffixes operands) labels addr
  unfolding instruction_words instruction
  no_condition-IsAssembled rule suffixes operands labels addr h start (words, assembled) =
      let (mods, first, reading) =
        ok->>= (read_suffixes (condition_modifier rule) (size_modifier rule) suffixes) assembled in
      let (arguments, second, conditions) =
        ok->>= (read_arguments (parameters rule) labels (wrapping_sub addr 4) addr operands)
          reading in
      let (c, third, sizes) =
        ok->>= (condition_variables (condition_modifier rule) mods.0) conditions in
      no_condition (size_modifier rule) suffixes start
        (ap (λ m. read_suffixes m (size_modifier rule) suffixes) (sym h) ∙ first)
        (ap (λ m. condition_variables m mods.0) (sym h) ∙ third)

  reading_fails :
      (rule : InstructionRule) (pair : RegisterPair) (operands : List Operand) (labels : Labels)
      (addr : ℕ)
      → is_relative rule ≡ true
      → read_arguments
          (parameters rule)
          labels
          (wrapping_sub addr 4)
          addr
          (Operand.register_no_size pair ∷ operands)
        ≡ panicked
  unfolding parameters read_arguments consume consume_by_type parse_argument
  reading_fails InstructionRule.jmpr pair operands labels addr h = refl
  reading_fails InstructionRule.cjmpr pair operands labels addr h = refl
  reading_fails InstructionRule.callr pair operands labels addr h = refl
  reading_fails _ pair operands labels addr h = absurd (false≢true h)

  -- `jmpr`, `cjmpr` and `callr` are not assembled when the first operand is a register without a
  -- size, a `register_no_size` of the grammar.
  pub register_no_size-IsAssembled :
      (rule : InstructionRule) (suffixes : List Suffix) (pair : RegisterPair)
      (operands : List Operand) (labels : Labels) (addr : ℕ)
      → is_relative rule ≡ true
      → ¬ IsAssembled (instr rule suffixes (Operand.register_no_size pair ∷ operands)) labels addr
  unfolding instruction_words instruction
  register_no_size-IsAssembled rule suffixes pair operands labels addr h (words, assembled) =
      let (mods, first, reading) =
        ok->>= (read_suffixes (condition_modifier rule) (size_modifier rule) suffixes) assembled in
      let (arguments, second, conditions) =
        ok->>=
          (read_arguments (parameters rule) labels (wrapping_sub addr 4) addr
            (Operand.register_no_size pair ∷ operands))
          reading in
      let panics = reading_fails rule pair operands labels addr h in cc
