-- ===== src/Assembler/Immediate/Integer.antt =====
-- Immediates as integers without a bound: what `evaluate_immediate` is to compute.
use acca.Prelude.{ltb, ℕ, ◌+◌, ◌-◌, ◌*◌, ◌/◌, ◌%◌, ◌^◌, Option, none, some, ◌==◌, if◌then◌else◌}
use acca.Word.{IsWord}
use acca.Assembler.Outcome.{Outcome, ok, panicked, ◌>>=◌}
use acca.Assembler.Syntax.{Immediate, PrefixRule, InfixRule}
use acca.Assembler.Immediate.{Labels, evaluate, map_infix}

-- An integer, as the first number less the second one.
abbrev pub Difference : Type 0
Difference = ℕ × ℕ

-- The integer modulo 2^64.
abbrev pub reduce : Difference → ℕ
reduce (more, less) = (more % 2 ^ 64 + (2 ^ 64 - less % 2 ^ 64)) % 2 ^ 64

-- -x, and -x - 1.
abbrev pub prefix_difference : PrefixRule → Difference → Difference
prefix_difference PrefixRule.neg (more, less) = (less, more)
prefix_difference PrefixRule.not (more, less) = (less, more + 1)

abbrev pub of_word : ℕ → Outcome Difference
of_word value = ok (value, 0)

-- A signed word divided by a power of two, and rounded down.
abbrev pub signed_quotient : ℕ → ℕ → Difference
signed_quotient value power =
    if ltb value (2 ^ 63) then (value / power, 0) else (0, (2 ^ 64 - 1 - value) / power + 1)

-- Sum, difference and product of integers, and products with and quotients by powers of two; the
-- other operators are those of words.
abbrev pub infix_difference : Difference → InfixRule → Difference → Outcome Difference
infix_difference (more, less) InfixRule.add (more', less') = ok (more + more', less + less')
infix_difference (more, less) InfixRule.sub (more', less') = ok (more + less', less + more')
infix_difference (more, less) InfixRule.mul (more', less') =
    ok (more * more' + less * less', more * less' + less * more')
infix_difference (more, less) InfixRule.shift_left rhs =
    let factor = 2 ^ (reduce rhs % 2 ^ 32) in ok (more * factor, less * factor)
infix_difference lhs InfixRule.shift_right_logical rhs =
    of_word (reduce lhs / 2 ^ (reduce rhs % 2 ^ 32))
infix_difference lhs InfixRule.shift_right_arithmetic rhs =
    ok (signed_quotient (reduce lhs) (2 ^ (reduce rhs % 2 ^ 32)))
infix_difference lhs op rhs = map_infix (reduce lhs) op (reduce rhs) >>= of_word

-- The integer that an immediate denotes, with no wrap-around in its arithmetic.
abbrev pub difference : Labels → ℕ → Immediate → Outcome Difference
difference labels current (Immediate.immediate inner) = difference labels current inner
difference labels current (Immediate.prefix op operand) = do
  rhs ← difference labels current operand
  ok (prefix_difference op rhs)
difference labels current (Immediate.infix_op left op right) = do
  lhs ← difference labels current left
  rhs ← difference labels current right
  infix_difference lhs op rhs
difference labels current leaf = evaluate labels current leaf >>= of_word

-- The number itself or, relative to an address, the distance in instructions to a target that is
-- aligned.
abbrev pub distance : Option ℕ → ℕ → Outcome ℕ
distance none value = ok value
distance (some relative) value =
    if value % 4 == 0 then ok (reduce (value / 4, relative / 4)) else panicked

abbrev pub IsAddress : Option ℕ → Type 0
IsAddress none = Unit
IsAddress (some relative) = IsWord relative
