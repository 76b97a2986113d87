-- ===== src/Assembler/Literal/Written.antt =====
-- The integer literals of acca-as/src/grammar.pest, from their digits, and what they denote.
use acca.Prelude.{ℕ, ◌+◌, ◌-◌, ◌*◌, ◌<◌, Bool, true, List, [], ◌∷◌, map, ltb, if◌then◌else◌, ◌&&◌}
use acca.Assembler.Syntax.{
  Literal, LiteralRule, binary_literal, octal_literal, decimal_literal, hex_literal,
}

-- The character of a digit, an upper-case letter or not.
abbrev pub digit_char : Bool → ℕ → ℕ
digit_char upper d =
    if ltb d 10 then b'0' + d else if upper then b'A' + (d - 10) else b'a' + (d - 10)

-- A character of a literal's digits.
pub data LiteralChar : Type 0 where
  underscore : LiteralChar
  digit : Bool → ℕ → LiteralChar

abbrev pub literal_char : LiteralChar → ℕ
literal_char underscore = b'_'
literal_char (digit upper d) = digit_char upper d

-- A decimal literal without a prefix, or a literal with one, whose letter is an upper-case one or
-- not.
pub data Form : Type 0 where
  without_prefix : Form
  with_prefix : LiteralRule → Bool → Form

abbrev pub rule_of : Form → LiteralRule
rule_of without_prefix = decimal_literal
rule_of (with_prefix rule upper) = rule

-- The letter of a literal's prefix.
abbrev pub prefix_letter : LiteralRule → Bool → ℕ
prefix_letter binary_literal upper = if upper then b'B' else b'b'
prefix_letter octal_literal upper = if upper then b'O' else b'o'
prefix_letter decimal_literal upper = if upper then b'D' else b'd'
prefix_letter hex_literal upper = if upper then b'X' else b'x'

abbrev pub form_text : Form → List ℕ → List ℕ
form_text without_prefix chars = chars
form_text (with_prefix rule upper) chars = b'0' ∷ prefix_letter rule upper ∷ chars

-- A literal of the grammar, from its first digit and the characters behind it.
abbrev pub literal : Form → Bool → ℕ → List LiteralChar → Literal
literal form upper first rest = record {
  rule = rule_of form;
  text = form_text form (map literal_char (digit upper first ∷ rest));
}

-- The digits that the grammar allows are below this; an octal literal may hold 8 and 9.
abbrev pub grammar_bound : LiteralRule → ℕ
grammar_bound binary_literal = 2
grammar_bound octal_literal = 10
grammar_bound decimal_literal = 10
grammar_bound hex_literal = 16

abbrev pub IsDigit : ℕ → LiteralChar → Type 0
IsDigit bound underscore = Unit
IsDigit bound (digit upper d) = d < bound

-- Whether all digits are digits of a radix.
abbrev pub has_radix : ℕ → List LiteralChar → Bool
has_radix radix [] = true
has_radix radix (underscore ∷ chars) = has_radix radix chars
has_radix radix (digit upper d ∷ chars) = ltb d radix && has_radix radix chars

-- The number that digits denote, after those of the number `value`.
abbrev pub number : ℕ → ℕ → List LiteralChar → ℕ
number radix value [] = value
number radix value (underscore ∷ chars) = number radix value chars
number radix value (digit upper d ∷ chars) = number radix (value * radix + d) chars
