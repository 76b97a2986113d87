-- ===== src/Assembler/Macro/Notation.antt =====
-- Notation for the tokens of an instruction in acca-as/src/main.rs.
use Prim.Native.String.{String}
use acca.Prelude.{ℕ, List, [], ◌∷◌}
use acca.Assembler.Macro.Tokens.{
  alone, joint, parenthesis, brace, bracket, Token, ident, literal, punct, group, Tokens, end, ◌▸◌,
  ◌++◌,
}

abbrev pub mark : ℕ → Token
mark char = punct char alone

-- `name: ty`
abbrev pub typed : String → String → Tokens
typed name ty = ident name ▸ mark b':' ▸ ident ty ▸ end

-- `name: ty | other`
abbrev pub either : String → String → String → Tokens
either name ty other = typed name ty ++ (mark b'|' ▸ ident other ▸ end)

-- `[name: ty]`
abbrev pub optionally : String → String → Tokens
optionally name ty = group bracket (typed name ty) ▸ end

-- `name: ty(function)`
abbrev pub consumed : String → String → String → Tokens
consumed name ty function = typed name ty ++ (group parenthesis (ident function ▸ end) ▸ end)

abbrev pub after_comma : List Tokens → Tokens → Tokens
after_comma [] rest = rest
after_comma (tokens ∷ list) rest = mark b',' ▸ (tokens ++ after_comma list rest)

-- Tokens with commas between them.
abbrev pub separated : List Tokens → Tokens → Tokens
separated [] rest = rest
separated (tokens ∷ list) rest = tokens ++ after_comma list rest

-- `=>`
abbrev pub arrow : Tokens → Tokens
arrow rest = punct b'=' joint ▸ punct b'>' alone ▸ rest

-- `[string]`
abbrev pub in_brackets : String → Token
in_brackets string = group bracket (literal string ▸ end)

-- `args => [string]`
abbrev pub encoding : List Tokens → String → Tokens
encoding args string = separated args (arrow (in_brackets string ▸ end))

-- `let name = size_of(regs);`
abbrev pub let_size : String → List Tokens → Tokens
let_size name regs =
    ident "let"
    ▸ ident name
    ▸ mark b'='
    ▸ ident "size_of"
    ▸ group parenthesis (separated regs end)
    ▸ mark b';'
    ▸ end

-- `args => [string],`
abbrev pub arm : List Tokens → String → Tokens
arm args string = separated args (arrow (in_brackets string ▸ mark b',' ▸ end))

-- `args { lets } => [string],`
abbrev pub sized_arm : List Tokens → Tokens → String → Tokens
sized_arm args lets string =
    separated args (group brace lets ▸ arrow (in_brackets string ▸ mark b',' ▸ end))

-- `args => { arms }`
abbrev pub choice : List Tokens → Tokens → Tokens
choice args arms = separated args (arrow (group brace arms ▸ end))

-- `[.s]`, `[.c]` and `.c`
abbrev pub size_optional : Token
size_optional = group bracket (mark b'.' ▸ ident "s" ▸ end)

abbrev pub cond_optional : Token
cond_optional = group bracket (mark b'.' ▸ ident "c" ▸ end)

abbrev pub cond_required : Tokens → Tokens
cond_required rest = mark b'.' ▸ ident "c" ▸ rest

-- `rule = name`
abbrev pub renamed : String → String → Tokens → Tokens
renamed rule name rest = ident rule ▸ mark b'=' ▸ ident name ▸ rest
