-- ===== src/Assembler/Literal.antt =====
-- `parse_integer` and `parse_machine_register`.
pub mod Written
pub mod Radix
pub mod Digits
use Prim.Native.String.{String}
use text.Mathlib.Text.{◌==◌ as ◌is◌}
use acca.Prelude.{
  ℕ, zero, suc, ◌+◌, ◌-◌, ◌*◌, ◌^◌, Bool, true, false, not, ◌&&◌, ◌||◌, Option, none, some, List,
  [], ◌∷◌, length, drop, ltb, leb, ◌==◌, if◌then◌else◌,
}
use acca.Assembler.Outcome.{Outcome, ok, panicked, ◌>>=◌, unwrap}
use acca.Assembler.Syntax.{
  Literal, LiteralRule, binary_literal, octal_literal, decimal_literal, hex_literal,
}

-- `char::to_digit`
unfoldable pub to_digit : ℕ → ℕ → Option ℕ
to_digit radix char =
    let value =
      if leb b'0' char && leb char b'9'
      then char - b'0'
      else if leb b'a' char && leb char b'z'
      then char - b'a' + 10
      else if leb b'A' char && leb char b'Z'
      then char - b'A' + 10
      else 36 in
    if ltb value radix then some value else none

-- One round of the loop of `u64::from_str_radix`, which fails on overflow.
unfoldable pub next_value : ℕ → ℕ → Option ℕ → Option ℕ
next_value radix value none = none
next_value radix value (some digit) =
    if ltb (value * radix + digit) (2 ^ 64) then some (value * radix + digit) else none

unfoldable pub digits_value : ℕ → List ℕ → Option ℕ → Option ℕ
digits_value radix [] value = value
digits_value radix (char ∷ chars) none = none
digits_value radix (char ∷ chars) (some value) =
    digits_value radix chars (next_value radix value (to_digit radix char))

-- `u64::from_str_radix`; `none` is its error. A text that has no digits is an error.
unfoldable pub from_str_radix : List ℕ → ℕ → Option ℕ
from_str_radix [] radix = none
from_str_radix (char ∷ []) radix = digits_value radix (char ∷ []) (some 0)
from_str_radix (char ∷ next ∷ chars) radix =
    if char == b'+'
    then digits_value radix (next ∷ chars) (some 0)
    else digits_value radix (char ∷ next ∷ chars) (some 0)

-- `starts_with("0d")` or `starts_with("0D")`
abbrev pub has_decimal_prefix : List ℕ → Bool
has_decimal_prefix (first ∷ second ∷ rest) = first == b'0' && (second == b'd' || second == b'D')
has_decimal_prefix _ = false

-- `&text[2..]`
abbrev pub after_prefix : List ℕ → Outcome (List ℕ)
after_prefix text = if leb 2 (length text) then ok (drop 2 text) else panicked

abbrev pub radix_of : LiteralRule → ℕ
radix_of binary_literal = 2
radix_of octal_literal = 8
radix_of decimal_literal = 10
radix_of hex_literal = 16

abbrev pub digits_text : LiteralRule → List ℕ → Outcome (List ℕ)
digits_text decimal_literal text = if has_decimal_prefix text then after_prefix text else ok text
digits_text binary_literal text = after_prefix text
digits_text octal_literal text = after_prefix text
digits_text hex_literal text = after_prefix text

-- `filter(|&char| char != '_')`
abbrev pub without_underscores : List ℕ → List ℕ
without_underscores [] = []
without_underscores (char ∷ chars) =
    let rest = without_underscores chars in if char == b'_' then rest else char ∷ rest

unfoldable pub parse_integer : Literal → Outcome ℕ
parse_integer literal = do
  text ← digits_text literal.rule literal.text
  unwrap (from_str_radix (without_underscores text) (radix_of literal.rule))

unfoldable pub parse_machine_register : String → Outcome ℕ
parse_machine_register mreg =
    if mreg is "flags"
    then ok 0
    else if mreg is "elr"
    then ok 1
    else if mreg is "esp"
    then ok 2
    else if mreg is "eflags"
    then ok 3
    else if mreg is "einfo"
    then ok 4
    else if mreg is "eaddr"
    then ok 5
    else if mreg is "evtable"
    then ok 6
    else if mreg is "ectable"
    then ok 7
    else panicked
