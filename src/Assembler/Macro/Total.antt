-- ===== src/Assembler/Macro/Total.antt =====
-- The macros of acca-as-proc-macro/src/lib.rs end on all tokens.
use acca.Prelude.{Option, none, some, List, [], ◌∷◌, ◌≢◌, arith}
use text.Mathlib.Text.{◌==◌ as ◌is◌}
use acca.Assembler.Macro.Tokens.{ident, Tokens, end, ◌▸◌, out_of_fuel, length}
use acca.Assembler.Macro.Header.{
  Litrs, Argument, Instruction, BodyTokens, no_body, bracketed, braced,
}
use acca.Assembler.Macro.Encoding.{letter}
use acca.Assembler.Macro.Expansion.{
  consumer_of, argument_spec, argument_specs, body_of, expanded_body, expanded,
  instruction_sequences, instruction_arm, instruction_arms, instructions, additional_idents,
}
use acca.Assembler.Macro.Fuel.{holds, refused, Ensures-≢, Ensures->>=, Ensures-if, Ensures-expect}
use acca.Assembler.Macro.Ends.{Ends, instruction_helper-Ends}
use acca.Assembler.Macro.ArmsEnd.{instruction_encoding-Ends, arms-Ends}

consumer_of-Ends : (function : Option Tokens) → Ends (consumer_of function)
consumer_of-Ends none = holds tt
consumer_of-Ends (some (ident name ▸ end)) =
    Ensures-if (name is "next_byte_relative_immediate") (holds tt)
      (Ensures-if (name is "next_machine_register_or_immediate") (holds tt) refused)
consumer_of-Ends (some _) = refused

argument_spec-Ends : (argument : Argument) → Ends (argument_spec argument)
argument_spec-Ends argument =
    Ensures->>= (Ensures-expect (letter argument.name))
      λ _ _. Ensures->>= (consumer_of-Ends argument.consumer_function) λ _ _. holds tt

argument_specs-Ends : (args : List Argument) → Ends (argument_specs args)
argument_specs-Ends [] = holds tt
argument_specs-Ends (argument ∷ args) =
    Ensures->>= (argument_spec-Ends argument)
      λ _ _. Ensures->>= (argument_specs-Ends args) λ _ _. holds tt

body_of-Ends : (instruction : Instruction) (body : BodyTokens) → Ends (body_of instruction body)
body_of-Ends instruction no_body = holds tt
body_of-Ends instruction (bracketed stream) =
    Ensures->>= (instruction_encoding-Ends _) λ _ _. holds tt
body_of-Ends instruction (braced stream) =
    Ensures->>=
      (arms-Ends (length stream) (additional_idents instruction.modifiers) stream (omega arith))
      λ _ _. holds tt

expanded-Ends : (instruction : Instruction) → Ends (expanded instruction)
unfolding expanded expanded_body
expanded-Ends instruction =
    Ensures->>= (argument_specs-Ends instruction.arguments)
      λ _ _. Ensures->>= (body_of-Ends instruction instruction.body) λ _ _. holds tt

instruction_arm-Ends : ⦃litrs : Litrs⦄ (sequence : Tokens) → Ends (instruction_arm sequence)
unfolding instruction_arm
instruction_arm-Ends sequence =
    Ensures->>= (instruction_helper-Ends sequence)
      λ instruction _. Ensures->>= (expanded-Ends instruction) λ _ _. holds tt

instruction_arms-Ends :
    ⦃litrs : Litrs⦄ (sequences : List Tokens) → Ends (instruction_arms sequences)
instruction_arms-Ends [] = holds tt
instruction_arms-Ends (sequence ∷ sequences) =
    Ensures->>= (instruction_arm-Ends sequence)
      λ _ _. Ensures->>= (instruction_arms-Ends sequences) λ _ _. holds tt

-- On all tokens `instructions!` ends, in a value or in a panic: the rounds that its loops are
-- given, as many as there are tokens to read, are enough.
pub instructions-≢ : ⦃litrs : Litrs⦄ (item : Tokens) → instructions item ≢ out_of_fuel
unfolding instructions
instructions-≢ item = Ensures-≢ (instruction_arms-Ends (instruction_sequences item end))
