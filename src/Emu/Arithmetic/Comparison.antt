-- ===== src/Emu/Arithmetic/Comparison.antt =====
-- The comparisons of `soc` and `cjmpa`.
use acca.Prelude.{ℕ, ◌+◌, ◌%◌, ◌^◌, ◌≡◌, ◌∙◌, arith, false, ltb, ◌==◌}
use acca.Word.{IsWord}
use acca.Emu.Util.Size.{Size, byte, double_byte, quad_byte, word, bit_size}
use acca.Emu.Util.Register.{get_signed}
use acca.Emu.Util.Register.Sized.{get_signed_lem, sign_extended}
use acca.Emu.Util.Flags.{if_c, if_z, if_l, test}
use acca.Emu.State.{Vm, register}
use acca.Emu.Arithmetic.{compare_registers}
use acca.Emu.Arithmetic.Conditions.{low, biased, sub_outcome_lem}

-- Sign extension keeps the bits of the width.
low-sign_extended :
    (size : Size) (x : ℕ)
    → (low size (sign_extended (bit_size size) x) ≡ low size x)
      × (biased size (sign_extended (bit_size size) x) ≡ biased size x)
      × IsWord (sign_extended (bit_size size) x)
low-sign_extended byte x = (ground arith, ground arith, ground arith)
low-sign_extended double_byte x = (ground arith, ground arith, ground arith)
low-sign_extended quad_byte x = (ground arith, ground arith, ground arith)
low-sign_extended word x = (ground arith, ground arith, ground arith)

signed_lem :
    (size : Size) (x : ℕ)
    → (low size (get_signed x size) ≡ low size x)
      × (biased size (get_signed x size) ≡ biased size x)
      × IsWord (get_signed x size)
signed_lem size x = rw get_signed_lem (low-sign_extended size x)

eq_low :
    (size : Size) (a' b' a b : ℕ)
    → a' ≡ low size a
    → b' ≡ low size b
    → (a' == (b' + 0) % 2 ^ bit_size size) ≡ (low size a == low size b)
eq_low byte a' b' a b h h' = ground (arith, h, h')
eq_low double_byte a' b' a b h h' = ground (arith, h, h')
eq_low quad_byte a' b' a b h h' = ground (arith, h, h')
eq_low word a' b' a b h h' = ground (arith, h, h')

ltb_sum : (a' b' a b : ℕ) → a' ≡ a → b' ≡ b → ltb a' (b' + 0) ≡ ltb a b
ltb_sum a' b' a b h h' = ground (arith, h, h')

-- Without a borrow, the conditions `C`, `Z` and `L` of a comparison tell whether the left operand
-- is less as an unsigned number, equal, and less as a signed number, at the width of the
-- operation.
pub compare_registers_lem :
    (size : Size) (lhs rhs : ℕ) (vm : Vm)
    → let a = register vm lhs in
      let b = register vm rhs in
      (compare_registers size lhs rhs false if_c vm ≡ ltb (low size a) (low size b))
      × (compare_registers size lhs rhs false if_z vm ≡ (low size a == low size b))
      × (compare_registers size lhs rhs false if_l vm ≡ ltb (biased size a) (biased size b))
unfolding compare_registers test
compare_registers_lem size lhs rhs vm =
    let (low_a, biased_a, word_a) = signed_lem size (register vm lhs) in
    let (low_b, biased_b, word_b) = signed_lem size (register vm rhs) in
    let (c, z, o, s, l) =
      sub_outcome_lem size (get_signed (register vm lhs) size) (get_signed (register vm rhs) size) 0
        word_b (omega arith) in
    (
      c ∙ ltb_sum _ _ _ _ low_a low_b,
      z ∙ eq_low size _ _ (register vm lhs) (register vm rhs) low_a low_b,
      l ∙ ltb_sum _ _ _ _ biased_a biased_b,
    )
