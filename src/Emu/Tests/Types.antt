-- ===== src/Emu/Tests/Types.antt =====
-- The parser of the types of parameters on a list of texts.
use Prim.Native.String.{String}
use text.Mathlib.Text.{◌==◌ as ◌is◌}
use text.Mathlib.TextEquality.{eq_iff}
use acca.Prelude.{
  Bool, true, false, Option, none, some, List, [], ◌∷◌, ◌≡◌, refl, sym, ◌∙◌, if◌then◌else◌,
}
use acca.Emu.Instruction.Parameters.{nullable_register_type}
use acca.Emu.Instruction.TypeParser.{
  Syn, IsDocumentedSyn, optional_null, parameter_type, parameter_type-null,
}

abbrev peek : String → List String → Bool
peek keyword [] = false
peek keyword (first ∷ rest) = first is keyword

abbrev parse : String → List String → Option (List String)
parse keyword [] = none
parse keyword (first ∷ rest) = if first is keyword then some rest else none

abbrev parse_text : List String → Option (String × List String)
parse_text [] = none
parse_text (first ∷ rest) = some (first, rest)

instance abbrev texts : Syn
texts = record {
  Stream = List String;
  peek_keyword = peek;
  parse_keyword = parse;
  peek_bar = peek "|";
  parse_bar = parse "|";
  parse_ident = parse_text;
}

parse_unseen :
    (keyword : String) (input : List String)
    → peek keyword input ≡ false
    → parse keyword input ≡ none
parse_unseen keyword [] h = refl
parse_unseen keyword (first ∷ rest) h = rw h refl

peek_one :
    (keyword other : String) (input : List String)
    → peek keyword input ≡ true
    → peek other input ≡ true
    → keyword ≡ other
peek_one keyword other [] h h' = cc
peek_one keyword other (first ∷ rest) h h' =
    sym ((eq_iff first keyword).0 h) ∙ (eq_iff first other).0 h'

texts-IsDocumentedSyn : IsDocumentedSyn texts
texts-IsDocumentedSyn = record { parse_keyword_unseen = parse_unseen; peek_keyword_one = peek_one }

parameter_type-nullable :
    parameter_type ("reg" ∷ "|" ∷ "null" ∷ []) ≡ some (nullable_register_type, [])
unfolding parameter_type optional_null
parameter_type-nullable = refl

parameter_type-null_example : parameter_type ("null" ∷ "|" ∷ "reg" ∷ []) ≡ none
parameter_type-null_example =
    parameter_type-null ("null" ∷ "|" ∷ "reg" ∷ []) texts-IsDocumentedSyn refl
