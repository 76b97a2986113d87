-- ===== src/Assembler/Macro/Alternatives.antt =====
-- The alternatives of an argument's type in acca-as-proc-macro/src/lib.rs.
use Prim.Native.String.{String}
use text.Mathlib.Text.{◌==◌ as ◌is◌}
use text.Mathlib.TextEquality.{eq_iff}
use acca.Prelude.{
  ℕ, true, false, Option, none, some, List, ◌≡◌, ◌≢◌, refl, sym, ap, ◌∙◌, Bool-cases, inl, inr,
  if◌then◌else◌,
}
use acca.Assembler.Template.{
  ArgumentType, register, immediate, relative_immediate, register_or_immediate,
  register_or_relative_immediate,
}
use acca.Assembler.Macro.Tokens.{codes}
use acca.Assembler.Macro.Types.{
  strip_prefix, by_prefix, argument_type, null_alternative, immediate_alternative,
  other_alternative, alternative_type,
}

some-injective : {A : Type 0} {a b : A} → some a ≡ some b → a ≡ b
some-injective h = cc

-- No case of an alternative gives a type if none of the three does.
by_prefix-none :
    {imm rel : List ℕ → Option ArgumentType} (after_imm after_rel : Option (List ℕ))
    {other : Option ArgumentType}
    → ((digits : List ℕ) → imm digits ≡ none)
    → ((digits : List ℕ) → rel digits ≡ none)
    → other ≡ none
    → by_prefix imm rel after_imm after_rel other ≡ none
by_prefix-none (some digits) after_rel himm hrel h = himm digits
by_prefix-none none (some digits) himm hrel h = hrel digits
by_prefix-none none none himm hrel h = h

-- A type name that is not that of registers is no "reg".
is_reg :
    (typestring : String) → argument_type typestring ≢ some register → (typestring is "reg") ≡ false
unfolding argument_type
is_reg typestring h = elim (Bool-cases (typestring is "reg")) [
  | inl e ↦ absurd (h (ap argument_type ((eq_iff typestring "reg").0 e)))
  | inr e ↦ e
]

other_alternative-none :
    (typestring : String) (ty : ArgumentType)
    → (typestring is "reg") ≡ false
    → other_alternative ty typestring ≡ none
other_alternative-none typestring (immediate n) h = rw h refl
other_alternative-none typestring (relative_immediate n) h = rw h refl
other_alternative-none typestring _ h = refl

null_alternative-none : (ty : ArgumentType) → ty ≢ register → null_alternative ty ≡ none
null_alternative-none register h = absurd (h refl)
null_alternative-none _ h = refl

immediate_alternative-none :
    (make : ℕ → ArgumentType) (ty : ArgumentType) (digits : List ℕ)
    → ty ≢ register
    → immediate_alternative make ty digits ≡ none
immediate_alternative-none make register digits h = absurd (h refl)
immediate_alternative-none make _ digits h = refl

-- A type that is not `reg` takes no alternative: whatever identifier follows the `|` behind it,
-- `reg` included, the macro panics.
pub alternative_type-argument_type :
    (typestring alt_typestring : String) (ty : ArgumentType)
    → argument_type typestring ≡ some ty
    → ty ≢ register
    → alternative_type ty typestring alt_typestring ≡ none
unfolding alternative_type
alternative_type-argument_type typestring alt ty h other =
    let not_reg : argument_type typestring ≢ some register =
      λ e. other (some-injective (sym h ∙ e)) in
    elim (alt is "null")
      as (λ b.
        (if b
          then null_alternative ty
          else by_prefix (immediate_alternative register_or_immediate ty)
              (immediate_alternative register_or_relative_immediate ty)
              (strip_prefix (codes "imm") (codes alt)) (strip_prefix (codes "rel") (codes alt))
              (other_alternative ty typestring))
        ≡ none) [
          | true ↦ null_alternative-none ty other
          | false ↦
              by_prefix-none _ _ (λ digits. immediate_alternative-none _ ty digits other)
                (λ digits. immediate_alternative-none _ ty digits other)
                (other_alternative-none typestring ty (is_reg typestring not_reg))
        ]
