-- ===== src/Assembler/Macro/Encoding.antt =====
-- What `instruction_encoding!` of acca-as-proc-macro/src/lib.rs reads: the identifiers and the
-- characters of an encoding.
use Prim.Native.Char.{code}
use Prim.Native.String.{String}
use mathlib.Core.List.{reverse}
use acca.Prelude.{
  ℕ, Bool, false, ◌&&◌, ◌||◌, Option, none, some, List, [], ◌∷◌, ◌==◌, leb, ltb, if◌then◌else◌,
  ◌++◌ as ◌append◌,
}
use acca.Prelude.{length as count}
use acca.Encoding.Scan.{InstructionBit, bit_of}
use acca.Assembler.Macro.Tokens.{
  ident, literal, punct, Tokens, end, ◌▸◌, Expansion, panicked, ◌>>=◌, expect, codes,
}

-- `position` of the `;`, `split_off`, `swap` and `remove`: the tokens before and behind it.
unfoldable pub split_semicolon : Tokens → Option (Tokens × Tokens)
split_semicolon end = none
split_semicolon (punct char spacing ▸ rest) =
    let found = split_semicolon rest in
    if char == b';' then some (end, rest) else elim found [
      | none ↦ none
      | some (idents, tokens) ↦ some (punct char spacing ▸ idents, tokens)
    ]
split_semicolon (token ▸ rest) = elim (split_semicolon rest) [
  | none ↦ none
  | some (idents, tokens) ↦ some (token ▸ idents, tokens)
]

-- The character of an identifier of one byte.
unfoldable pub letter : String → Option ℕ
letter String.[] = none
letter (String.◌∷◌ ch string) = elim (codes string) [
  | [] ↦ if ltb (code ch) 128 then some (code ch) else none
  | _ ↦ none
]

-- The keys of `var_idents`.
unfoldable pub var_idents : Tokens → Option (List ℕ)
var_idents end = some []
var_idents (ident name ▸ rest) = elim (letter name) [
  | none ↦ none
  | some char ↦ elim (var_idents rest) [ none ↦ none | some chars ↦ some (char ∷ chars) ]
]
var_idents (token ▸ rest) = none

-- The characters of the literals and the identifiers.
unfoldable pub text : Tokens → List ℕ
text end = []
text (literal lit ▸ rest) = codes lit append text rest
text (ident name ▸ rest) = codes name append text rest
text (token ▸ rest) = text rest

abbrev pub member : ℕ → List ℕ → Bool
member char [] = false
member char (first ∷ rest) = char == first || member char rest

abbrev pub is_ascii_alphabetic : ℕ → Bool
is_ascii_alphabetic char = (leb b'a' char && leb char b'z') || (leb b'A' char && leb char b'Z')

-- Whether the loop goes on at a character.
abbrev pub is_known : List ℕ → ℕ → Bool
is_known vars char = char == b'0' || char == b'1' || (is_ascii_alphabetic char && member char vars)

-- The loop over the characters.
unfoldable pub read_bits : List ℕ → List ℕ → Option (List InstructionBit)
read_bits vars [] = some []
read_bits vars (char ∷ string) =
    let rest = read_bits vars string in
    if is_known vars char
    then elim rest [ none ↦ none | some bits ↦ some (bit_of char ∷ bits) ]
    else none

-- The bits, the lowest first.
unfoldable pub instruction_encoding : Tokens → Expansion (List InstructionBit)
instruction_encoding end = panicked
instruction_encoding (write_instr_ident ▸ all_tokens) = do
  (idents, tokens) ← expect (split_semicolon all_tokens)
  vars ← expect (var_idents idents)
  if count (text tokens) == 32 then expect (read_bits vars (reverse (text tokens))) else panicked
