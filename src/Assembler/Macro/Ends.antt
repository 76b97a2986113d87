-- ===== src/Assembler/Macro/Ends.antt =====
-- `instruction_helper` of acca-as-proc-macro/src/lib.rs ends on all tokens.
use Prim.Native.String.{String}
use acca.Prelude.{false, [], ◌==◌, arith}
use acca.Assembler.Template.{Modifier}
use text.Mathlib.Text.{◌==◌ as ◌is◌}
use acca.Assembler.Macro.Tokens.{
  alone, joint, brace, bracket, ident, punct, group, Tokens, end, ◌▸◌, Expansion, length,
}
use acca.Assembler.Macro.Header.{
  Litrs, Modifiers, token_name, skip_instruction_name, set_absent, set_modifier, read_modifiers,
  arrow_body, read_body, at_end, instruction_helper,
}
use acca.Assembler.Macro.Fuel.{
  Ensures, holds, refused, Ensures->>=, Ensures-if, Ensures-expect, read_arguments-Left,
}

abbrev pub Ends : {A : Type 0} → Expansion A → Type 0
Ends e = Ensures (λ _. Unit) e

skip_instruction_name-Ends : (tokens : Tokens) → Ends (skip_instruction_name tokens)
unfolding skip_instruction_name
skip_instruction_name-Ends (punct char alone ▸ end) = Ensures-if (char == b'=') refused (holds tt)
skip_instruction_name-Ends (punct char alone ▸ token ▸ rest) =
    Ensures-if (char == b'=') (holds tt) (holds tt)
skip_instruction_name-Ends _ = holds tt

set_modifier-Ends :
    (id : String) (state : Modifier) (mods : Modifiers) → Ends (set_modifier id state mods)
unfolding set_modifier
set_modifier-Ends id state mods =
    Ensures-if (id is "c")
      (Ensures->>= (Ensures-expect (set_absent mods.condition_mod state)) λ _ _. holds tt)
      (Ensures-if (id is "s")
        (Ensures->>= (Ensures-expect (set_absent mods.size_mod state)) λ _ _. holds tt) refused)

read_modifiers-Ends : (mods : Modifiers) (tokens : Tokens) → Ends (read_modifiers mods tokens)
unfolding read_modifiers
read_modifiers-Ends mods (punct char spacing ▸ ident id ▸ rest) =
    Ensures-if (char == b'.')
      (Ensures->>= (set_modifier-Ends id _ mods) λ mods' _. read_modifiers-Ends mods' rest)
      (holds tt)
read_modifiers-Ends mods (punct char spacing ▸ rest) = Ensures-if (char == b'.') refused (holds tt)
read_modifiers-Ends mods (group bracket (punct char spacing ▸ ident id ▸ inner) ▸ rest) =
    Ensures-if (char == b'.')
      (Ensures->>= (set_modifier-Ends id _ mods) λ mods' _. read_modifiers-Ends mods' rest)
      (holds tt)
read_modifiers-Ends mods (group bracket (punct char spacing ▸ inner) ▸ rest) =
    Ensures-if (char == b'.') refused (holds tt)
read_modifiers-Ends mods _ = holds tt

read_body-Ends : (tokens : Tokens) → Ends (read_body tokens)
unfolding read_body arrow_body
read_body-Ends (punct equals joint ▸ punct char spacing ▸ group bracket stream ▸ rest) =
    Ensures-if (equals == b'=') (Ensures-if (char == b'>') (holds tt) refused) (holds tt)
read_body-Ends (punct equals joint ▸ punct char spacing ▸ group brace stream ▸ rest) =
    Ensures-if (equals == b'=') (Ensures-if (char == b'>') (holds tt) refused) (holds tt)
read_body-Ends (punct equals joint ▸ rest) = Ensures-if (equals == b'=') refused (holds tt)
read_body-Ends _ = holds tt

at_end-Ends : {A : Type 0} (result : A × Tokens) → Ends (at_end result)
at_end-Ends (value, end) = holds tt
at_end-Ends (value, token ▸ rest) = refused

pub instruction_helper-Ends : ⦃litrs : Litrs⦄ (tokens : Tokens) → Ends (instruction_helper tokens)
unfolding instruction_helper
instruction_helper-Ends end = refused
instruction_helper-Ends (first ▸ rest) =
    Ensures->>= (Ensures-expect (token_name first)) λ source_name _.
      Ensures->>= (skip_instruction_name-Ends rest) λ rest _.
        Ensures->>= (read_modifiers-Ends _ rest) λ (mods, rest) _.
          Ensures->>= (read_arguments-Left (length rest) [] false rest (omega arith))
            λ (args, rest) _.
              Ensures->>= (Ensures->>= (read_body-Ends rest) λ result _. at_end-Ends result)
                λ body _. holds tt
