-- ===== src/Emu/Arithmetic/Conditions.antt =====
-- The condition bits that `add` and `sub` compute, against the arithmetic they stand for.
use mathlib.Core.Bool.{xor}
use acca.Prelude.{
  ℕ, ◌+◌, ◌-◌, ◌*◌, ◌%◌, ◌^◌, ◌<◌, bit_and, ◌≡◌, refl, ap, ◌∙◌, sym, arith, ◌||◌, ltb, leb, ◌==◌,
  if◌then◌else◌,
}
use acca.Word.{IsWord, wrapping_add, wrapping_sub}
use acca.Bits.Mask.{bit_and_low}
use acca.Emu.Util.Bit.{bit_as_bool}
use acca.Emu.Util.Bit.Laws.{bit_as_bool_lem}
use acca.Emu.Util.Size.{Size, byte, double_byte, quad_byte, word, bit_size, msb_index, mask}
use acca.Emu.Arithmetic.Halves.{
  moved, carry_of_sum, overflow_of_sum, borrow_of_difference, overflow_of_difference,
  sign_of_difference,
}
use acca.Emu.Arithmetic.{add_outcome, sub_outcome}

-- The value of the low bits of an operand, and the same read as a signed number, moved up by half
-- of the range.
abbrev pub low : Size → ℕ → ℕ
low size x = x % 2 ^ bit_size size

abbrev pub half : Size → ℕ
half size = 2 ^ (bit_size size - 1)

abbrev pub biased : Size → ℕ → ℕ
biased size x = (x + half size) % 2 ^ bit_size size

-- The top bit of the width, and the test of the result, as comparisons.
msb_lem : (size : Size) (x : ℕ) → bit_as_bool x (msb_index size) ≡ leb (half size) (low size x)
msb_lem byte x = bit_as_bool_lem x 7 (omega arith) ∙ ground arith
msb_lem double_byte x = bit_as_bool_lem x 15 (omega arith) ∙ ground arith
msb_lem quad_byte x = bit_as_bool_lem x 31 (omega arith) ∙ ground arith
msb_lem word x = bit_as_bool_lem x 63 (omega arith) ∙ ground arith

zero_lem : (size : Size) (x : ℕ) → (bit_and x (mask size) == 0) ≡ (low size x == 0)
zero_lem byte x = rw (bit_and_low 8 x) refl
zero_lem double_byte x = rw (bit_and_low 16 x) refl
zero_lem quad_byte x = rw (bit_and_low 32 x) refl
zero_lem word x = rw (bit_and_low 64 x) refl

-- The result of `add` and of `sub`, cut to the range.
sum_lem :
    (size : Size) (lhs rhs c : ℕ)
    → c < 2
    → let a = low size lhs in
      let b = low size rhs in
      low size (wrapping_add (wrapping_add lhs rhs) c)
      ≡ (if leb (2 * half size) (a + b + c) then a + b + c - 2 * half size else a + b + c)
sum_lem byte lhs rhs c h = ground arith
sum_lem double_byte lhs rhs c h = ground arith
sum_lem quad_byte lhs rhs c h = ground arith
sum_lem word lhs rhs c h = ground arith

difference_lem :
    (size : Size) (lhs rhs c : ℕ)
    → IsWord rhs
    → c < 2
    → let a = low size lhs in
      let b = low size rhs in
      low size (wrapping_sub (wrapping_sub lhs rhs) c)
      ≡ (if ltb a (b + c) then a + 2 * half size - (b + c) else a - (b + c))
difference_lem byte lhs rhs c h h' = ground arith
difference_lem double_byte lhs rhs c h h' = ground arith
difference_lem quad_byte lhs rhs c h h' = ground arith
difference_lem word lhs rhs c h h' = ground arith

moved_lem : (size : Size) (x : ℕ) → moved (half size) (low size x) ≡ biased size x
moved_lem byte x = ground arith
moved_lem double_byte x = ground arith
moved_lem quad_byte x = ground arith
moved_lem word x = ground arith

low-lt : (size : Size) (x : ℕ) → low size x < 2 * half size
low-lt byte x = omega arith
low-lt double_byte x = omega arith
low-lt quad_byte x = omega arith
low-lt word x = omega arith

sum_low :
    (size : Size) (lhs rhs c : ℕ)
    → low size (wrapping_add (wrapping_add lhs rhs) c)
      ≡ (low size lhs + low size rhs + c) % 2 ^ bit_size size
sum_low byte lhs rhs c = omega arith
sum_low double_byte lhs rhs c = omega arith
sum_low quad_byte lhs rhs c = omega arith
sum_low word lhs rhs c = omega arith

two_halves : (size : Size) → 2 ^ bit_size size ≡ 2 * half size
two_halves byte = refl
two_halves double_byte = refl
two_halves quad_byte = refl
two_halves word = refl

-- The condition bits of `add` on operands and a carry of 0 or 1: the carry out of the width, a zero result,
-- a signed sum out of the signed range, and the sign of the result. `biased` is the signed value
-- moved up by `half`.
pub add_outcome_lem :
    (size : Size) (lhs rhs c : ℕ)
    → c < 2
    → let sum = low size lhs + low size rhs + c in
      let result = wrapping_add (wrapping_add lhs rhs) c in
      let signed = biased size lhs + biased size rhs + c in
      let out = add_outcome size lhs rhs result in
      (out.carry_bit ≡ leb (2 ^ bit_size size) sum)
      × (out.zero_bit ≡ (sum % 2 ^ bit_size size == 0))
      × (out.overflow_bit ≡ (ltb signed (half size) || leb (3 * half size) signed))
      × (out.sign_bit ≡ leb (half size) (sum % 2 ^ bit_size size))
unfolding add_outcome
add_outcome_lem size lhs rhs c h =
    let a = low size lhs in
    let b = low size rhs in
    let result = wrapping_add (wrapping_add lhs rhs) c in
    let r = low size result in
    let r-lt = low-lt size result in
    let cut = sum_lem size lhs rhs c h in
    rw (msb_lem size lhs, msb_lem size rhs, msb_lem size result, zero_lem size result)
      (
        carry_of_sum (half size) a b c r (low-lt size lhs) (low-lt size rhs) h r-lt cut
            ∙ ap (λ t. leb t (a + b + c)) (sym (two_halves size)),
        ap (λ t. t == 0) (sum_low size lhs rhs c),
        rw (sym (moved_lem size lhs), sym (moved_lem size rhs))
            (overflow_of_sum (half size) a b c r (low-lt size lhs) (low-lt size rhs) h r-lt cut),
        ap (leb (half size)) (sum_low size lhs rhs c),
      )

zero_of_difference :
    (size : Size) (lhs rhs c : ℕ)
    → IsWord rhs
    → c < 2
    → (low size (wrapping_sub (wrapping_sub lhs rhs) c) == 0)
      ≡ (low size lhs == (low size rhs + c) % 2 ^ bit_size size)
zero_of_difference byte lhs rhs c h h' = ground arith
zero_of_difference double_byte lhs rhs c h h' = ground arith
zero_of_difference quad_byte lhs rhs c h h' = ground arith
zero_of_difference word lhs rhs c h h' = ground arith

-- The condition bits of `sub` on operands, the right one a word, and a borrow of 0 or 1, and so of the
-- comparisons: the
-- borrow, equality, a signed difference out of the signed range, and the sign of the result. Sign
-- and overflow together tell which signed operand is less, which is what the condition `L` tests.
pub sub_outcome_lem :
    (size : Size) (lhs rhs c : ℕ)
    → IsWord rhs
    → c < 2
    → let a = low size lhs in
      let b = low size rhs + c in
      let signed_a = biased size lhs in
      let signed_b = biased size rhs + c in
      let result = wrapping_sub (wrapping_sub lhs rhs) c in
      let out = sub_outcome size lhs rhs result in
      (out.carry_bit ≡ ltb a b)
      × (out.zero_bit ≡ (a == b % 2 ^ bit_size size))
      × (out.overflow_bit
          ≡ (ltb (signed_a + half size) signed_b || leb (signed_b + half size) signed_a))
      × (out.sign_bit ≡ leb (half size) (low size result))
      × (xor out.sign_bit out.overflow_bit ≡ ltb signed_a signed_b)
unfolding sub_outcome
sub_outcome_lem size lhs rhs c h' h =
    let a = low size lhs in
    let b = low size rhs in
    let result = wrapping_sub (wrapping_sub lhs rhs) c in
    let r = low size result in
    let r-lt = low-lt size result in
    let cut = difference_lem size lhs rhs c h' h in
    rw (msb_lem size lhs, msb_lem size rhs, msb_lem size result, zero_lem size result)
      (
        borrow_of_difference (half size) a b c r (low-lt size lhs) (low-lt size rhs) h r-lt cut,
        zero_of_difference size lhs rhs c h' h,
        rw (sym (moved_lem size lhs), sym (moved_lem size rhs))
            (overflow_of_difference (half size) a b c r (low-lt size lhs) (low-lt size rhs) h r-lt
              cut),
        refl,
        rw (sym (moved_lem size lhs), sym (moved_lem size rhs))
            (sign_of_difference (half size) a b c r (low-lt size lhs) (low-lt size rhs) h r-lt cut),
      )
