-- ===== src/Assembler/Macro/ArmsEnd.antt =====
-- `instruction_body!` of acca-as/src/main.rs and `instruction_encoding!` of
-- acca-as-proc-macro/src/lib.rs end on all tokens.
use Prim.Native.String.{String}
use acca.Prelude.{ℕ, zero, suc, ◌≤◌, ◌&&◌, List, [], ◌∷◌, ◌==◌, arith, ◌++◌ as ◌append◌}
use mathlib.Core.List.{reverse}
use acca.Prelude.{length as count}
use acca.Assembler.Template.{Pattern}
use text.Mathlib.Text.{◌==◌ as ◌is◌}
use acca.Assembler.Macro.Tokens.{
  alone, joint, parenthesis, brace, bracket, ident, punct, group, Tokens, end, ◌▸◌, length,
}
use acca.Assembler.Macro.Encoding.{
  letter, instruction_encoding, split_semicolon, var_idents, read_bits, text as text_of,
}
use acca.Assembler.Macro.Arms.{
  pattern_of, ArmArgument, arm_names, arm_types, arm_alternative, registers, sizes, optional_sizes,
  arm_value, letters, named_sizes, named_patterns, expanded_arm, arms,
}
use acca.Assembler.Macro.Fuel.{
  Ensures, holds, refused, Ensures->>=, Ensures-if, Ensures-expect, Left,
}
use acca.Assembler.Macro.Ends.{Ends}

pub instruction_encoding-Ends : (tokens : Tokens) → Ends (instruction_encoding tokens)
unfolding instruction_encoding
instruction_encoding-Ends end = refused
instruction_encoding-Ends (write_instr ▸ all_tokens) =
    Ensures->>= (Ensures-expect (split_semicolon all_tokens)) λ (idents, tokens) _.
      Ensures->>= (Ensures-expect (var_idents idents)) λ vars _.
        Ensures-if (count (text_of tokens) == 32)
          (Ensures-expect (read_bits vars (reverse (text_of tokens)))) refused

-- The parts of an arm.
mutual
  unfolding arm_names

  arm_names-Left :
      (args : List ArmArgument) (tokens : Tokens) (n : ℕ)
      → length tokens ≤ n
      → Ensures (Left n) (arm_names args tokens)
  arm_names-Left args (ident arg ▸ punct char spacing ▸ ident ty ▸ rest) n h =
      Ensures-if (char == b':') (arm_types-Left args arg (pattern_of ty ∷ []) rest n (omega arith))
        refused
  arm_names-Left args (ident arg ▸ rest) n h = refused
  arm_names-Left args _ n h = holds h

  arm_types-Left :
      (args : List ArmArgument) (arg : String) (types : List Pattern) (tokens : Tokens) (n : ℕ)
      → length tokens ≤ n
      → Ensures (Left n) (arm_types args arg types tokens)
  arm_types-Left args arg types (punct char spacing ▸ rest) n h =
      Ensures-if (char == b'|') (arm_alternative-Left args arg types rest n (omega arith)) (
        Ensures-if (char == b',')
          (arm_names-Left (args append ((arg, types) ∷ [])) rest n (omega arith)) (holds h))
  arm_types-Left args arg types _ n h = holds h

  arm_alternative-Left :
      (args : List ArmArgument) (arg : String) (types : List Pattern) (tokens : Tokens) (n : ℕ)
      → length tokens ≤ n
      → Ensures (Left n) (arm_alternative args arg types tokens)
  arm_alternative-Left args arg types (ident ty ▸ rest) n h =
      arm_types-Left args arg (types append (pattern_of ty ∷ [])) rest n (omega arith)
  arm_alternative-Left args arg types _ n h = refused

registers-Ends : (tokens : Tokens) → Ends (registers tokens)
unfolding registers
registers-Ends (ident reg ▸ end) = holds tt
registers-Ends (ident reg ▸ punct char spacing ▸ end) = Ensures-if (char == b',') (holds tt) refused
registers-Ends (ident reg ▸ punct char spacing ▸ rest) =
    Ensures-if (char == b',') (Ensures->>= (registers-Ends rest) λ _ _. holds tt) refused
registers-Ends _ = refused

sizes-Ends : (tokens : Tokens) → Ends (sizes tokens)
unfolding sizes
sizes-Ends end = holds tt
sizes-Ends
      (ident let_word
        ▸ ident size_name
        ▸ punct equals alone
        ▸ ident size_of
        ▸ group parenthesis regs
        ▸ punct semicolon spacing
        ▸ rest) =
    Ensures-if (let_word is "let" && equals == b'=' && size_of is "size_of" && semicolon == b';')
      (Ensures->>= (registers-Ends regs) λ _ _. Ensures->>= (sizes-Ends rest) λ _ _. holds tt)
      refused
sizes-Ends _ = refused

optional_sizes-Left :
    (tokens : Tokens) (n : ℕ) → length tokens ≤ n → Ensures (Left n) (optional_sizes tokens)
optional_sizes-Left (group brace block ▸ rest) n h =
    Ensures->>= (sizes-Ends block) λ _ _. holds (omega arith)
optional_sizes-Left _ n h = holds h

arm_value-Left :
    (tokens : Tokens) (n : ℕ) → length tokens ≤ suc n → Ensures (Left n) (arm_value tokens)
unfolding arm_value
arm_value-Left
      (punct equals joint ▸ punct greater spacing ▸ group bracket value ▸ punct char after ▸ rest) n
      h =
    Ensures-if (equals == b'=' && greater == b'>') (holds (ground arith)) refused
arm_value-Left (punct equals joint ▸ punct greater spacing ▸ group bracket value ▸ rest) n h =
    Ensures-if (equals == b'=' && greater == b'>') (holds (omega arith)) refused
arm_value-Left _ n h = refused

letters-Ends : (names : List String) → Ends (letters names)
unfolding letters
letters-Ends [] = holds tt
letters-Ends (name ∷ names) =
    Ensures->>= (Ensures-expect (letter name))
      λ _ _. Ensures->>= (letters-Ends names) λ _ _. holds tt

named_sizes-Ends : (lets : List (String × List String)) → Ends (named_sizes lets)
named_sizes-Ends [] = holds tt
named_sizes-Ends ((size_name, regs) ∷ rest) = Ensures->>= (Ensures-expect (letter size_name)) λ _ _.
    Ensures->>= (letters-Ends regs) λ _ _. Ensures->>= (named_sizes-Ends rest) λ _ _. holds tt

named_patterns-Ends : (args : List ArmArgument) → Ends (named_patterns args)
named_patterns-Ends [] = holds tt
named_patterns-Ends ((arg, types) ∷ rest) =
    Ensures->>= (Ensures-expect (letter arg))
      λ _ _. Ensures->>= (named_patterns-Ends rest) λ _ _. holds tt

expanded_arm-Ends :
    (additional : List String) (args : List ArmArgument) (lets : List (String × List String))
    (value : Tokens)
    → Ends (expanded_arm additional args lets value)
expanded_arm-Ends additional [] lets value = refused
expanded_arm-Ends additional (arg ∷ rest) lets value =
    Ensures->>= (named_patterns-Ends (arg ∷ rest)) λ _ _.
      Ensures->>= (named_sizes-Ends lets)
        λ _ _. Ensures->>= (instruction_encoding-Ends _) λ _ _. holds tt

pub arms-Ends :
    (fuel : ℕ) (additional : List String) (tokens : Tokens)
    → length tokens ≤ fuel
    → Ends (arms fuel additional tokens)
unfolding arms
arms-Ends fuel additional end h = holds tt
arms-Ends zero additional (token ▸ tokens) h = absurd (omega arith)
arms-Ends (suc fuel) additional (token ▸ tokens) h =
    Ensures->>= (arm_names-Left [] (token ▸ tokens) (suc fuel) h) λ (args, rest) left.
      Ensures->>= (optional_sizes-Left rest (suc fuel) left) λ (lets, rest') left'.
        Ensures->>= (arm_value-Left rest' fuel left') λ (value, rest'') left''.
          Ensures->>= (expanded_arm-Ends additional args lets value)
            λ _ _. Ensures->>= (arms-Ends fuel additional rest'' left'') λ _ _. holds tt
