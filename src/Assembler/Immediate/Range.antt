-- ===== src/Assembler/Immediate/Range.antt =====
-- The values of immediates are `u64`.
use native.Mathlib.Nat.{div-le_self, mod-le}
use acca.Prelude.{
  ℕ, ◌%◌, ◌^◌, ◌<◌, ◌≤◌, ◌≡◌, inl, inr, Option, none, some, List, [], ◌∷◌, Bool-cases, ◌==◌, arith,
}
use Prim.Native.String.{String}
use mathlib.Core.Path.{subst}
use acca.Word.{IsWord, shr}
use acca.Bits.Mask.{bit_or-lt, bit_xor-lt, bit_and-le}
use acca.Assembler.Outcome.{ok, ok->>=, ok-injective, unwrap-ok}
use acca.Assembler.Syntax.{Immediate, PrefixRule, InfixRule, Literal}
use acca.Assembler.Literal.{
  next_value, digits_value, from_str_radix, parse_integer, parse_machine_register, to_digit,
  digits_text, without_underscores, radix_of,
}
use acca.Assembler.Immediate.{
  Labels, get, unescape, parse_boolean, map_prefix, shift_arithmetic, map_infix, label_address,
  evaluate,
}

map_prefix-IsWord : (op : PrefixRule) (rhs : ℕ) → IsWord rhs → IsWord (map_prefix op rhs)
unfolding map_prefix
map_prefix-IsWord PrefixRule.neg rhs h = omega arith
map_prefix-IsWord PrefixRule.not rhs h = omega arith

shr-le : (x k : ℕ) → shr x k ≤ x
shr-le x k = div-le_self x (2 ^ k)

shift_arithmetic-IsWord : (lhs k : ℕ) → IsWord lhs → IsWord (shift_arithmetic lhs k)
unfolding shift_arithmetic
shift_arithmetic-IsWord lhs k h = ground (arith, shr-le lhs k)

pub map_infix-IsWord :
    (lhs : ℕ) (op : InfixRule) (rhs : ℕ) {result : ℕ}
    → IsWord lhs
    → IsWord rhs
    → map_infix lhs op rhs ≡ ok result
    → IsWord result
unfolding map_infix
map_infix-IsWord lhs InfixRule.or rhs h k r =
    subst IsWord (ok-injective r) (bit_or-lt 64 lhs rhs h k)
map_infix-IsWord lhs InfixRule.xor rhs h k r =
    subst IsWord (ok-injective r) (bit_xor-lt 64 lhs rhs h k)
map_infix-IsWord lhs InfixRule.and rhs h k r =
    subst IsWord (ok-injective r) (omega (arith, bit_and-le lhs rhs))
map_infix-IsWord lhs InfixRule.shift_left rhs h k r = subst IsWord (ok-injective r) (ground arith)
map_infix-IsWord lhs InfixRule.shift_right_logical rhs h k r =
    subst IsWord (ok-injective r) (ground (arith, shr-le lhs (rhs % 2 ^ 32)))
map_infix-IsWord lhs InfixRule.shift_right_arithmetic rhs h k r =
    subst IsWord (ok-injective r) (shift_arithmetic-IsWord lhs (rhs % 2 ^ 32) h)
map_infix-IsWord lhs InfixRule.add rhs h k r = subst IsWord (ok-injective r) (omega arith)
map_infix-IsWord lhs InfixRule.sub rhs h k r = subst IsWord (ok-injective r) (omega arith)
map_infix-IsWord lhs InfixRule.mul rhs h k r = subst IsWord (ok-injective r) (omega arith)
map_infix-IsWord lhs InfixRule.div rhs h k r = ground (arith, div-le_self lhs rhs, h, r)
map_infix-IsWord lhs InfixRule.rem rhs h k r = ground (arith, mod-le lhs rhs, h, r)

next_value-IsWord :
    (radix value : ℕ) (digit : Option ℕ) {next : ℕ}
    → next_value radix value digit ≡ some next
    → IsWord next
unfolding next_value
next_value-IsWord radix value none h = cc
next_value-IsWord radix value (some d) h = ground (arith, h)

digits_value-IsWord :
    (radix : ℕ) (chars : List ℕ) (value : Option ℕ) {result : ℕ}
    → ((v : ℕ) → value ≡ some v → IsWord v)
    → digits_value radix chars value ≡ some result
    → IsWord result
unfolding digits_value
digits_value-IsWord radix [] value below h = below _ h
digits_value-IsWord radix (char ∷ chars) none below h = cc
digits_value-IsWord radix (char ∷ chars) (some value) below h =
    digits_value-IsWord radix chars (next_value radix value (to_digit radix char))
      (λ v same. next_value-IsWord radix value (to_digit radix char) same) h

zero_below : (v : ℕ) → some 0 ≡ some v → IsWord v
zero_below v h = ground (arith, h)

from_str_radix-IsWord :
    (text : List ℕ) (radix : ℕ) {result : ℕ}
    → from_str_radix text radix ≡ some result
    → IsWord result
unfolding from_str_radix
from_str_radix-IsWord [] radix h = cc
from_str_radix-IsWord (char ∷ []) radix h =
    digits_value-IsWord radix (char ∷ []) (some 0) zero_below h
from_str_radix-IsWord (char ∷ next ∷ chars) radix h = elim (Bool-cases (char == b'+')) [
  | inl plus ↦
      digits_value-IsWord radix (next ∷ chars) (some 0) zero_below (ground (arith, plus, h))
  | inr digit ↦
      digits_value-IsWord radix (char ∷ next ∷ chars) (some 0) zero_below (ground (arith, digit, h))
]

parse_integer-IsWord :
    (literal : Literal) {value : ℕ} → parse_integer literal ≡ ok value → IsWord value
unfolding parse_integer
parse_integer-IsWord literal h =
    let (text, first, rest) = ok->>= (digits_text literal.rule literal.text) h in
    from_str_radix-IsWord (without_underscores text) (radix_of literal.rule)
      (unwrap-ok (from_str_radix (without_underscores text) (radix_of literal.rule)) rest)

parse_boolean-IsWord : (text : String) {value : ℕ} → parse_boolean text ≡ ok value → IsWord value
unfolding parse_boolean
parse_boolean-IsWord text h = ground (arith, h)

unescape-IsWord : (char : ℕ) {value : ℕ} → unescape char ≡ ok value → IsWord value
unfolding unescape
unescape-IsWord char h = ground (arith, h)

parse_machine_register-IsWord :
    (text : String) {value : ℕ} → parse_machine_register text ≡ ok value → IsWord value
unfolding parse_machine_register
parse_machine_register-IsWord text h = ground (arith, h)

-- The characters of an immediate are Unicode's, below 2^32.
abbrev pub HasCharacters : Immediate → Type 0
HasCharacters (Immediate.normal_char char) = char < 2 ^ 32
HasCharacters (Immediate.immediate inner) = HasCharacters inner
HasCharacters (Immediate.prefix op operand) = HasCharacters operand
HasCharacters (Immediate.infix_op left op right) = HasCharacters left × HasCharacters right
HasCharacters _ = Unit

-- Every label's value is a `u64`.
abbrev pub HasWords : Labels → Type 0
HasWords labels = (name : String) (value : ℕ) → get labels name ≡ some value → IsWord value

label_address-ok : (o : Option ℕ) {value : ℕ} → label_address o ≡ ok value → o ≡ some value
unfolding label_address
label_address-ok none h = cc
label_address-ok (some a) h = cc

pub evaluate-IsWord :
    (labels : Labels) (current : ℕ) (imm : Immediate) {value : ℕ}
    → HasWords labels
    → IsWord current
    → HasCharacters imm
    → evaluate labels current imm ≡ ok value
    → IsWord value
unfolding evaluate
evaluate-IsWord labels current (Immediate.integer literal) words here chars h =
    parse_integer-IsWord literal h
evaluate-IsWord labels current (Immediate.boolean text) words here chars h =
    parse_boolean-IsWord text h
evaluate-IsWord labels current (Immediate.machine_register_literal text) words here chars h =
    parse_machine_register-IsWord text h
evaluate-IsWord labels current (Immediate.ident name) words here chars h =
    words name _ (label_address-ok (get labels name) h)
evaluate-IsWord labels current Immediate.current_address words here chars h =
    subst IsWord (ok-injective h) here
evaluate-IsWord labels current (Immediate.normal_char char) words here chars h =
    ground (arith, chars, ok-injective h)
evaluate-IsWord labels current (Immediate.escaped_char char) words here chars h =
    unescape-IsWord char h
evaluate-IsWord labels current (Immediate.immediate inner) words here chars h =
    evaluate-IsWord labels current inner words here chars h
evaluate-IsWord labels current (Immediate.prefix op operand) words here chars h =
    let (rhs, first, rest) = ok->>= (evaluate labels current operand) h in
    subst IsWord (ok-injective rest)
      (map_prefix-IsWord op rhs (evaluate-IsWord labels current operand words here chars first))
evaluate-IsWord labels current (Immediate.infix_op left op right) words here
      (left_chars, right_chars) h =
    let (lhs, first, rest) = ok->>= (evaluate labels current left) h in
    let (rhs, second, result) = ok->>= (evaluate labels current right) rest in
    map_infix-IsWord lhs op rhs (evaluate-IsWord labels current left words here left_chars first)
      (evaluate-IsWord labels current right words here right_chars second) result
