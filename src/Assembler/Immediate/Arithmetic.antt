-- ===== src/Assembler/Immediate/Arithmetic.antt =====
-- What the arithmetic operators of immediates compute: `evaluate_immediate`.
use acca.Prelude.{ℕ, ◌/◌, ◌%◌, ◌^◌, ◌≡◌, refl, sym, ap, ◌∙◌, Option, none, some, arith}
use acca.Word.{IsWord, wrapping_sub}
use acca.Bits.Mask.{bit_and_low}
use acca.Assembler.Outcome.{Outcome, ok, exited, panicked, ◌>>=◌}
use acca.Assembler.Syntax.{Immediate, PrefixRule, InfixRule}
use acca.Assembler.Immediate.{
  Labels, evaluate, map_prefix, map_infix, relative_to, evaluate_immediate,
}
use acca.Assembler.Immediate.Range.{HasCharacters, HasWords, map_infix-IsWord, evaluate-IsWord}
use acca.Assembler.Immediate.Integer.{
  Difference, reduce, prefix_difference, of_word, infix_difference, difference, distance, IsAddress,
}
use acca.Assembler.Immediate.Reduce.{
  reduce-IsWord, reduce_unique, map_prefix-reduce, product, shift_left-reduce, shift_right-reduce,
  shift_arithmetic-reduce,
}

word_outcome :
    (o : Outcome ℕ) → ((v : ℕ) → o ≡ ok v → IsWord v) → o ≡ ((o >>= of_word) >>= λ d. ok (reduce d))
word_outcome (ok v) h = ap ok (reduce_unique v v 0 (h v refl) (omega arith))
word_outcome exited h = refl
word_outcome panicked h = refl

of_words :
    (lhs : Difference) (op : InfixRule) (rhs : Difference)
    → map_infix (reduce lhs) op (reduce rhs)
      ≡ ((map_infix (reduce lhs) op (reduce rhs) >>= of_word) >>= λ d. ok (reduce d))
of_words lhs op rhs =
    word_outcome (map_infix (reduce lhs) op (reduce rhs)) (λ v h.
      map_infix-IsWord (reduce lhs) op (reduce rhs) (reduce-IsWord lhs) (reduce-IsWord rhs) h)

map_infix-reduce :
    (lhs : Difference) (op : InfixRule) (rhs : Difference)
    → map_infix (reduce lhs) op (reduce rhs) ≡ (infix_difference lhs op rhs >>= λ d. ok (reduce d))
unfolding map_infix
map_infix-reduce (more, less) InfixRule.add (more', less') = ap ok (omega arith)
map_infix-reduce (more, less) InfixRule.sub (more', less') = ap ok (omega arith)
map_infix-reduce (more, less) InfixRule.mul (more', less') = ap ok (product more less more' less')
map_infix-reduce (more, less) InfixRule.shift_left rhs =
    ap ok (shift_left-reduce more less (reduce rhs % 2 ^ 32))
map_infix-reduce lhs InfixRule.or rhs = of_words lhs InfixRule.or rhs
map_infix-reduce lhs InfixRule.xor rhs = of_words lhs InfixRule.xor rhs
map_infix-reduce lhs InfixRule.and rhs = of_words lhs InfixRule.and rhs
map_infix-reduce lhs InfixRule.shift_right_logical rhs =
    ap ok (shift_right-reduce (reduce lhs) (reduce rhs % 2 ^ 32) (reduce-IsWord lhs))
map_infix-reduce lhs InfixRule.shift_right_arithmetic rhs =
    ap ok (shift_arithmetic-reduce (reduce lhs) (reduce rhs % 2 ^ 32) (reduce-IsWord lhs))
map_infix-reduce lhs InfixRule.div rhs = of_words lhs InfixRule.div rhs
map_infix-reduce lhs InfixRule.rem rhs = of_words lhs InfixRule.rem rhs

prefix_outcome :
    (op : PrefixRule) (o : Outcome Difference)
    → ((o >>= λ d. ok (reduce d)) >>= λ rhs. ok (map_prefix op rhs))
      ≡ ((o >>= λ rhs. ok (prefix_difference op rhs)) >>= λ d. ok (reduce d))
prefix_outcome op (ok d) = ap ok (map_prefix-reduce op d)
prefix_outcome op exited = refl
prefix_outcome op panicked = refl

infix_outcome :
    (o : Outcome Difference) (op : InfixRule) (o' : Outcome Difference)
    → ((o >>= λ d. ok (reduce d)) >>= λ lhs.
        (o' >>= λ d. ok (reduce d)) >>= λ rhs. map_infix lhs op rhs)
      ≡ ((o >>= λ lhs. o' >>= λ rhs. infix_difference lhs op rhs) >>= λ d. ok (reduce d))
infix_outcome (ok lhs) op (ok rhs) = map_infix-reduce lhs op rhs
infix_outcome (ok lhs) op exited = refl
infix_outcome (ok lhs) op panicked = refl
infix_outcome exited op o' = refl
infix_outcome panicked op o' = refl

-- What is evaluated without an operator is a word.
leaf_outcome :
    (labels : Labels) (current : ℕ) (imm : Immediate)
    → HasWords labels
    → IsWord current
    → HasCharacters imm
    → evaluate labels current imm
      ≡ ((evaluate labels current imm >>= of_word) >>= λ d. ok (reduce d))
leaf_outcome labels current imm words here chars =
    word_outcome (evaluate labels current imm)
      (λ v h. evaluate-IsWord labels current imm words here chars h)

evaluate_lem :
    (labels : Labels) (current : ℕ) (imm : Immediate)
    → HasWords labels
    → IsWord current
    → HasCharacters imm
    → evaluate labels current imm ≡ (difference labels current imm >>= λ d. ok (reduce d))
unfolding evaluate
evaluate_lem labels current (Immediate.integer literal) words here chars =
    leaf_outcome labels current (Immediate.integer literal) words here chars
evaluate_lem labels current (Immediate.boolean text) words here chars =
    leaf_outcome labels current (Immediate.boolean text) words here chars
evaluate_lem labels current (Immediate.machine_register_literal text) words here chars =
    leaf_outcome labels current (Immediate.machine_register_literal text) words here chars
evaluate_lem labels current (Immediate.ident name) words here chars =
    leaf_outcome labels current (Immediate.ident name) words here chars
evaluate_lem labels current Immediate.current_address words here chars =
    leaf_outcome labels current Immediate.current_address words here chars
evaluate_lem labels current (Immediate.normal_char char) words here chars =
    leaf_outcome labels current (Immediate.normal_char char) words here chars
evaluate_lem labels current (Immediate.escaped_char char) words here chars =
    leaf_outcome labels current (Immediate.escaped_char char) words here chars
evaluate_lem labels current (Immediate.immediate inner) words here chars =
    evaluate_lem labels current inner words here chars
evaluate_lem labels current (Immediate.prefix op operand) words here chars =
    ap (λ o. o >>= λ rhs. ok (map_prefix op rhs))
      (evaluate_lem labels current operand words here chars)
    ∙ prefix_outcome op (difference labels current operand)
evaluate_lem labels current (Immediate.infix_op left op right) words here (chars, chars') =
    ap (λ o. o >>= λ lhs. evaluate labels current right >>= λ rhs. map_infix lhs op rhs)
      (evaluate_lem labels current left words here chars)
    ∙ (ap
          (λ o. (difference labels current left >>= λ d. ok (reduce d)) >>= λ lhs.
            o >>= λ rhs. map_infix lhs op rhs)
          (evaluate_lem labels current right words here chars')
        ∙ infix_outcome (difference labels current left) op (difference labels current right))

relative_to-distance :
    (relative : Option ℕ) (value : ℕ)
    → IsWord value
    → IsAddress relative
    → relative_to relative value ≡ distance relative value
unfolding relative_to
relative_to-distance none value h address = refl
relative_to-distance (some relative) value h address =
    rw (bit_and_low 2 value, sym (quotients value relative h address)) refl
  where
    quotients :
        (value relative : ℕ)
        → IsWord value
        → IsWord relative
        → reduce (value / 4, relative / 4) ≡ wrapping_sub (value / 4) (relative / 4)
    quotients value relative h address = omega arith

relative_outcome :
    (relative : Option ℕ) (o : Outcome Difference)
    → IsAddress relative
    → ((o >>= λ d. ok (reduce d)) >>= relative_to relative)
      ≡ (o >>= λ d. distance relative (reduce d))
relative_outcome relative (ok d) address =
    relative_to-distance relative (reduce d) (reduce-IsWord d) address
relative_outcome relative exited address = refl
relative_outcome relative panicked address = refl

-- The value of an immediate is what one gets by computing its negations, complements, sums,
-- differences, products and shifts to the left on integers without a bound, and by reducing the
-- result modulo 2^64 only at the end or where another operator or the amount of a shift needs a
-- word. A shift to the right is the quotient of the word, signed or not, by a power of two,
-- rounded down. The amount of a shift is taken modulo 2^32. Relative to an address, the value is
-- the distance in instructions, if the target is aligned, and a panic if not. The labels' values,
-- the current address and the relative one are below 2^64, and the characters have codes below
-- 2^32. The first error of an operand, from the left, is the error of the immediate.
pub evaluate_immediate_lem :
    (imm : Immediate) (labels : Labels) (current : ℕ) (relative : Option ℕ)
    → HasWords labels
    → IsWord current
    → HasCharacters imm
    → IsAddress relative
    → evaluate_immediate imm labels current relative
      ≡ (difference labels current imm >>= λ d. distance relative (reduce d))
unfolding evaluate_immediate
evaluate_immediate_lem imm labels current relative words here chars address =
    ap (λ o. o >>= relative_to relative) (evaluate_lem labels current imm words here chars)
    ∙ relative_outcome relative (difference labels current imm) address
