-- ===== src/Emu/Instruction/TypeParser.antt =====
-- How acca-emu-proc-macro/src/lib.rs parses the type of a parameter, over the streams of the crate
-- syn.
use Prim.Native.String.{String}
use text.Mathlib.Text.{◌==◌ as ◌is◌}
use text.Mathlib.TextEquality.{eq_iff}
use acca.Prelude.{
  ℕ, Bool, true, false, Option, none, some, List, ◌≡◌, refl, Bool-cases, inl, inr, if◌then◌else◌,
}
use acca.Assembler.Literal.{from_str_radix}
use acca.Assembler.Macro.Tokens.{codes}
use acca.Assembler.Macro.Types.{strip_prefix}
use acca.Emu.Instruction.Parameters.{
  ParameterType, register, nullable_register_type, boolean, size, condition,
  nullable_condition_type, immediate, relative_immediate,
}

-- `ParseStream` of the crate syn: `peek` and `parse` of a keyword, of `|` and of an identifier.
pub record Syn : Type 1 where
  pub Stream : Type 0
  pub peek_keyword : String → Stream → Bool
  pub parse_keyword : String → Stream → Option Stream
  pub peek_bar : Stream → Bool
  pub parse_bar : Stream → Option Stream
  pub parse_ident : Stream → Option (String × Stream)

-- A keyword is parsed only where `peek` sees it, and `peek` sees at most one.
pub record IsDocumentedSyn (syn : Syn) : Type 0 where
  pub parse_keyword_unseen :
      (keyword : String) (input : syn.Stream)
      → syn.peek_keyword keyword input ≡ false
      → syn.parse_keyword keyword input ≡ none
  pub peek_keyword_one :
      (keyword other : String) (input : syn.Stream)
      → syn.peek_keyword keyword input ≡ true
      → syn.peek_keyword other input ≡ true
      → keyword ≡ other

infixl 5 ◌>>=◌
abbrev ◌>>=◌ : {A B : Type 0} → Option A → (A → Option B) → Option B
none >>= f = none
some a >>= f = f a

-- The width behind "imm" or "rel".
abbrev width_of : (ℕ → ParameterType) → List ℕ → Option ParameterType
width_of make digits = from_str_radix digits 10 >>= λ width. some (make width)

-- `kw::immrel`, and the type that it stands for.
unfoldable pub immrel : String → Option ParameterType
immrel ident_str = elim (strip_prefix (codes "rel") (codes ident_str)) [
  | some digits ↦ width_of relative_immediate digits
  | none ↦ elim (strip_prefix (codes "imm") (codes ident_str)) [
    | some digits ↦ width_of immediate digits
    | none ↦ none
  ]
]

module _ ⦃syn : Syn⦄ where
  -- `| null` behind a type, which may be missing.
  unfoldable pub optional_null :
      ParameterType → ParameterType → syn.Stream → Option (ParameterType × syn.Stream)
  optional_null ty nullable input =
      if syn.peek_bar input
      then (do
        input ← syn.parse_bar input
        input ← syn.parse_keyword "null" input
        some (nullable, input))
      else some (ty, input)

  -- `ParameterType::parse`
  unfoldable pub parameter_type : syn.Stream → Option (ParameterType × syn.Stream)
  parameter_type input =
      if syn.peek_keyword "bool" input
      then (do input ← syn.parse_keyword "bool" input; some (boolean, input))
      else if syn.peek_keyword "size" input
      then (do input ← syn.parse_keyword "size" input; some (size, input))
      else if syn.peek_keyword "cond" input
      then (do
        input ← syn.parse_keyword "cond" input
        optional_null condition nullable_condition_type input)
      else if syn.peek_keyword "null" input
      then (do
        input ← syn.parse_keyword "cond" input
        input ← syn.parse_bar input
        input ← syn.parse_keyword "reg" input
        some (nullable_register_type, input))
      else if syn.peek_keyword "reg" input
      then (do
        input ← syn.parse_keyword "reg" input
        optional_null register nullable_register_type input)
      else (do (ident_str, input) ← syn.parse_ident input; ty ← immrel ident_str; some (ty, input))

  -- A keyword that is not seen where `null` is.
  unseen :
      IsDocumentedSyn syn
      → (keyword : String) (input : syn.Stream) → syn.peek_keyword "null" input ≡ true
      → (keyword is "null") ≡ false
      → syn.peek_keyword keyword input ≡ false
  unseen documented keyword input seen other = elim (Bool-cases (syn.peek_keyword keyword input)) [
    | inl e ↦
        let same =
          (eq_iff keyword "null").1 (documented.peek_keyword_one keyword "null" input e seen) in
        cc
    | inr e ↦ e
  ]

  -- On a stream of a crate syn as documented, a type that begins with `null` is never parsed, so
  -- that the form `null | reg` of the source is refused.
  pub parameter_type-null :
      (input : syn.Stream)
      → IsDocumentedSyn syn
      → syn.peek_keyword "null" input ≡ true
      → parameter_type input ≡ none
  unfolding parameter_type
  parameter_type-null input documented seen =
      let no_cond = unseen documented "cond" input seen refl in
      rw
        (
          unseen documented "bool" input seen refl,
          unseen documented "size" input seen refl,
          no_cond,
          seen,
          documented.parse_keyword_unseen "cond" input no_cond,
        )
        refl
