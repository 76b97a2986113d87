-- ===== src/Assembler/Macro/Types.antt =====
-- The types of arguments that `instruction_helper` of acca-as-proc-macro/src/lib.rs reads.
use Prim.Native.String.{String}
use text.Mathlib.Text.{◌==◌ as ◌is◌}
use acca.Prelude.{ℕ, Option, none, some, List, [], ◌∷◌, ◌==◌, if◌then◌else◌}
use acca.Assembler.Literal.{from_str_radix}
use acca.Assembler.Template.{
  ArgumentType, register, nullable_register, boolean, immediate, relative_immediate,
  register_or_immediate, register_or_relative_immediate,
}
use acca.Assembler.Macro.Tokens.{
  Tokens, ident, punct, ◌▸◌, Expansion, done, panicked, ◌>>=◌, expect, codes,
}

-- What follows a prefix: `starts_with`, and the slice behind it.
abbrev pub strip_prefix : List ℕ → List ℕ → Option (List ℕ)
strip_prefix [] text = some text
strip_prefix (first ∷ prefix) [] = none
strip_prefix (first ∷ prefix) (char ∷ text) =
    let rest = strip_prefix prefix text in if first == char then rest else none

-- The width after "imm" or "rel", by `parse::<u64>`.
abbrev pub width : (ℕ → ArgumentType) → List ℕ → Option ArgumentType
width make digits = elim (from_str_radix digits 10) [ none ↦ none | some n ↦ some (make n) ]

-- The cases of a text that starts with "imm", with "rel" or with neither.
abbrev pub by_prefix :
    (List ℕ → Option ArgumentType)
    → (List ℕ → Option ArgumentType)
    → Option (List ℕ)
    → Option (List ℕ)
    → Option ArgumentType
    → Option ArgumentType
by_prefix imm rel (some digits) after_rel other = imm digits
by_prefix imm rel none (some digits) other = rel digits
by_prefix imm rel none none other = other

unfoldable pub argument_type : String → Option ArgumentType
argument_type typestring =
    by_prefix (width immediate) (width relative_immediate)
      (strip_prefix (codes "imm") (codes typestring))
      (strip_prefix (codes "rel") (codes typestring))
      (if typestring is "reg"
        then some register
        else if typestring is "bool"
        then some boolean
        else none)

abbrev pub null_alternative : ArgumentType → Option ArgumentType
null_alternative register = some nullable_register
null_alternative _ = none

abbrev pub immediate_alternative : (ℕ → ArgumentType) → ArgumentType → List ℕ → Option ArgumentType
immediate_alternative make register digits = width make digits
immediate_alternative make _ digits = none

-- The last case, which reads `typestring` and not `alt_typestring`.
abbrev pub other_alternative : ArgumentType → String → Option ArgumentType
other_alternative (immediate n) typestring =
    if typestring is "reg" then some (register_or_immediate n) else none
other_alternative (relative_immediate n) typestring =
    if typestring is "reg" then some (register_or_relative_immediate n) else none
other_alternative _ typestring = none

unfoldable pub alternative_type : ArgumentType → String → String → Option ArgumentType
alternative_type argtype typestring alt_typestring =
    if alt_typestring is "null"
    then null_alternative argtype
    else by_prefix (immediate_alternative register_or_immediate argtype)
        (immediate_alternative register_or_relative_immediate argtype)
        (strip_prefix (codes "imm") (codes alt_typestring))
        (strip_prefix (codes "rel") (codes alt_typestring)) (other_alternative argtype typestring)

-- The alternatives after the type `typestring`, and the tokens behind them.
unfoldable pub alternatives : String → ArgumentType → Tokens → Expansion (ArgumentType × Tokens)
alternatives typestring argtype (punct char spacing ▸ ident alt_typestring ▸ rest) =
    if char == b'|'
    then (do
      ty ← expect (alternative_type argtype typestring alt_typestring)
      alternatives typestring ty rest)
    else done (argtype, punct char spacing ▸ ident alt_typestring ▸ rest)
alternatives typestring argtype (punct char spacing ▸ rest) =
    if char == b'|' then panicked else done (argtype, punct char spacing ▸ rest)
alternatives typestring argtype tokens = done (argtype, tokens)
