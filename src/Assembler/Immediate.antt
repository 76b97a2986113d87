-- ===== src/Assembler/Immediate.antt =====
-- `evaluate_immediate` and `truncate_immediate`.
pub mod Truncation
pub mod Range
pub mod Integer
pub mod Reduce
pub mod Arithmetic
use Prim.Native.String.{String}
use text.Mathlib.Text.{◌==◌ as ◌is◌}
use acca.Prelude.{
  ℕ, ◌+◌, ◌-◌, ◌/◌, ◌%◌, ◌^◌, bit_and, bit_or, bit_xor, Bool, true, false, not, ◌&&◌, Option, none,
  some, List, [], ◌∷◌, ltb, ◌==◌, if◌then◌else◌,
}
use acca.Word.{
  all_bits, wrapping_add, wrapping_sub, wrapping_mul, bit_not, shl, shr, checked_shl, checked_shr,
  unwrap_or, is_negative, negate, arithmetic_shr,
}
use acca.Assembler.Outcome.{Outcome, ok, exited, panicked, ◌>>=◌}
use acca.Assembler.Syntax.{Immediate, PrefixRule, InfixRule}
use acca.Assembler.Literal.{parse_integer, parse_machine_register}

-- `HashMap<&str, u64>`
abbrev pub Labels : Type 0
Labels = List (String × ℕ)

unfoldable pub get : Labels → String → Option ℕ
get [] name = none
get ((label, value) ∷ labels) name = if label is name then some value else get labels name

unfoldable pub insert : Labels → String → ℕ → Labels
insert [] name value = (name, value) ∷ []
insert ((label, old) ∷ labels) name value =
    let rest = insert labels name value in
    if label is name then (label, value) ∷ labels else (label, old) ∷ rest

-- The code of an escaped character.
unfoldable pub unescape : ℕ → Outcome ℕ
unescape char =
    if char == b'\''
    then ok b'\''
    else if char == b'\\'
    then ok b'\\'
    else if char == b'n'
    then ok 10
    else if char == b'f'
    then ok 12
    else if char == b't'
    then ok 9
    else if char == b'r'
    then ok 13
    else if char == b'b'
    then ok 8
    else panicked

unfoldable pub parse_boolean : String → Outcome ℕ
parse_boolean text = if text is "true" then ok 1 else if text is "false" then ok 0 else panicked

unfoldable pub map_prefix : PrefixRule → ℕ → ℕ
map_prefix PrefixRule.neg rhs = negate rhs
map_prefix PrefixRule.not rhs = bit_not rhs

-- `(lhs as i64).checked_shr(amount)`, with the sign where the amount is too large.
unfoldable pub shift_arithmetic : ℕ → ℕ → ℕ
shift_arithmetic lhs amount =
    if ltb amount 64 then arithmetic_shr lhs amount else (if is_negative lhs then all_bits else 0)

-- A division by zero ends in `exit(1)`, and a remainder by zero in a panic.
unfoldable pub map_infix : ℕ → InfixRule → ℕ → Outcome ℕ
map_infix lhs InfixRule.or rhs = ok (bit_or lhs rhs)
map_infix lhs InfixRule.xor rhs = ok (bit_xor lhs rhs)
map_infix lhs InfixRule.and rhs = ok (bit_and lhs rhs)
map_infix lhs InfixRule.shift_left rhs = ok (unwrap_or (checked_shl lhs (rhs % 2 ^ 32)) 0)
map_infix lhs InfixRule.shift_right_logical rhs = ok (unwrap_or (checked_shr lhs (rhs % 2 ^ 32)) 0)
map_infix lhs InfixRule.shift_right_arithmetic rhs = ok (shift_arithmetic lhs (rhs % 2 ^ 32))
map_infix lhs InfixRule.add rhs = ok (wrapping_add lhs rhs)
map_infix lhs InfixRule.sub rhs = ok (wrapping_sub lhs rhs)
map_infix lhs InfixRule.mul rhs = ok (wrapping_mul lhs rhs)
map_infix lhs InfixRule.div rhs = if rhs == 0 then exited else ok (lhs / rhs)
map_infix lhs InfixRule.rem rhs = if rhs == 0 then panicked else ok (lhs % rhs)

-- A label that is not known ends in `exit(1)`.
unfoldable pub label_address : Option ℕ → Outcome ℕ
label_address none = exited
label_address (some address) = ok address

-- `evaluate_immediate` with no relative address.
unfoldable pub evaluate : Labels → ℕ → Immediate → Outcome ℕ
evaluate labels current (Immediate.integer literal) = parse_integer literal
evaluate labels current (Immediate.boolean text) = parse_boolean text
evaluate labels current (Immediate.machine_register_literal text) = parse_machine_register text
evaluate labels current (Immediate.ident name) = label_address (get labels name)
evaluate labels current Immediate.current_address = ok current
evaluate labels current (Immediate.normal_char char) = ok char
evaluate labels current (Immediate.escaped_char char) = unescape char
evaluate labels current (Immediate.immediate inner) = evaluate labels current inner
evaluate labels current (Immediate.prefix op operand) = do
  rhs ← evaluate labels current operand
  ok (map_prefix op rhs)
evaluate labels current (Immediate.infix_op left op right) = do
  lhs ← evaluate labels current left
  rhs ← evaluate labels current right
  map_infix lhs op rhs

-- `match for_relative_addr`: the distance in instructions.
unfoldable pub relative_to : Option ℕ → ℕ → Outcome ℕ
relative_to none result = ok result
relative_to (some rel_addr) result =
    if bit_and result 3 == 0 then ok (wrapping_sub (result / 4) (rel_addr / 4)) else panicked

unfoldable pub evaluate_immediate : Immediate → Labels → ℕ → Option ℕ → Outcome ℕ
evaluate_immediate imm labels current for_relative_addr = do
  result ← evaluate labels current imm
  relative_to for_relative_addr result

-- The callers give a number of bits from 1 to 64.
unfoldable pub truncate_immediate : ℕ → ℕ → Bool → ℕ
truncate_immediate imm bits sign_extend =
    let msb_mask = shl 1 (bits - 1) in
    let mask = shr all_bits (64 - bits) in
    let masked = bit_and imm mask in
    if sign_extend && not (bit_and masked msb_mask == 0)
    then bit_or (bit_not mask) masked
    else masked
