-- ===== src/Emu/Arithmetic.antt =====
-- `add`, `sub`, `mul`, `div` and `neg`, and the comparison of `soc` and `cjmpa`.
pub mod Halves
pub mod Conditions
pub mod Comparison
use acca.Prelude.{
  ℕ, ◌+◌, ◌*◌, ◌/◌, ◌%◌, ◌^◌, bit_and, bit_or, Bool, not, ◌&&◌, ◌||◌, Option, ltb, leb, ◌==◌,
  if◌then◌else◌,
}
use acca.Word.{
  all_bits, shl, wrapping_add, wrapping_sub, wrapping_mul, is_negative, magnitude, negate,
  with_sign, i64_mul_overflows,
}
use acca.Emu.Platform.{Platform}
use acca.Emu.Util.Bit.{bit_as_bool}
use acca.Emu.Util.Size.{Size, msb_index, mask}
use acca.Emu.Util.Register.{get_unsigned, get_signed}
use acca.Emu.Util.Flags.{Condition, test, carry, set_carry, set_zero, set_overflow, set_sign}
use acca.Emu.State.{Vm, register, Flow, ok, panic, ◌>>=◌}
use acca.Emu.Memory.{set_sized_register, set_destination}

-- The four condition bits that `add` and `sub` compute from operands and result.
pub record Outcome : Type 0 where
  pub carry_bit : Bool
  pub zero_bit : Bool
  pub overflow_bit : Bool
  pub sign_bit : Bool

abbrev pub with_outcome : ℕ → Outcome → ℕ
with_outcome flags out =
    set_sign (set_overflow (set_zero (set_carry flags out.carry_bit) out.zero_bit) out.overflow_bit)
      out.sign_bit

unfoldable pub add_outcome : Size → ℕ → ℕ → ℕ → Outcome
add_outcome size lhs rhs result =
    let lhs_msb = bit_as_bool lhs (msb_index size) in
    let rhs_msb = bit_as_bool rhs (msb_index size) in
    let res_msb = bit_as_bool result (msb_index size) in
    record {
      carry_bit = (lhs_msb && rhs_msb) || ((lhs_msb || rhs_msb) && not res_msb);
      zero_bit = bit_and result (mask size) == 0;
      overflow_bit =
          ((lhs_msb && rhs_msb) && not res_msb) || ((not lhs_msb && not rhs_msb) && res_msb);
      sign_bit = res_msb;
    }

unfoldable pub sub_outcome : Size → ℕ → ℕ → ℕ → Outcome
sub_outcome size lhs rhs result =
    let lhs_msb = bit_as_bool lhs (msb_index size) in
    let rhs_msb = bit_as_bool rhs (msb_index size) in
    let res_msb = bit_as_bool result (msb_index size) in
    record {
      carry_bit = ((not lhs_msb && rhs_msb) || (res_msb && rhs_msb)) || (res_msb && not lhs_msb);
      zero_bit = bit_and result (mask size) == 0;
      overflow_bit =
          ((lhs_msb && not rhs_msb) && not res_msb) || ((not lhs_msb && rhs_msb) && res_msb);
      sign_bit = res_msb;
    }

-- `if $borrow && self.flags.carry() { 1 } else { 0 }`
abbrev pub carry_in : Bool → Vm → ℕ
carry_in wanted vm = if wanted && carry vm.flags then 1 else 0

-- The common parts of the two forms of `add` and of `sub`, from the value of the right operand.
unfoldable pub add_with : Size → Option ℕ → ℕ → ℕ → Bool → Bool → Vm → Vm
add_with size dst lhs rhs carry set_flags vm =
    let left = get_signed (register vm lhs) size in
    let result = wrapping_add (wrapping_add left rhs) (carry_in carry vm) in
    let written = set_destination vm dst size result in
    if set_flags
    then record written { flags = with_outcome written.flags (add_outcome size left rhs result) }
    else written

unfoldable pub sub_with : Size → Option ℕ → ℕ → ℕ → Bool → Bool → Vm → Vm
sub_with size dst lhs rhs borrow set_flags vm =
    let left = get_signed (register vm lhs) size in
    let result = wrapping_sub (wrapping_sub left rhs) (carry_in borrow vm) in
    let written = set_destination vm dst size result in
    if set_flags
    then record written { flags = with_outcome written.flags (sub_outcome size left rhs result) }
    else written

module _ ⦃platform : Platform⦄ where
  -- `imm <<= shift_factor * 11` is checked only if the profile asks for it; otherwise the amount
  -- is taken modulo 64.
  unfoldable pub imm11_with_shift_factor : ℕ → ℕ → Bool → Flow ℕ
  imm11_with_shift_factor imm shift_factor sign_extend =
      let amount = shift_factor * 11 in
      let shifted = shl imm (amount % 64) in
      let msb = amount + 10 in
      if platform.overflow_checks && leb 64 amount
      then panic
      else if (sign_extend && ltb msb 63) && bit_as_bool shifted msb
      then ok (bit_or shifted (shl all_bits (amount + 11)))
      else ok shifted

  unfoldable pub add_imm : Size → Option ℕ → ℕ → ℕ → ℕ → Bool → Bool → Bool → Vm → Flow Vm
  add_imm size dst lhs rhs shift_factor sign_extend carry set_flags vm = do
    right ← imm11_with_shift_factor rhs shift_factor sign_extend
    ok (add_with size dst lhs right carry set_flags vm)

  unfoldable pub sub_imm : Size → Option ℕ → ℕ → ℕ → ℕ → Bool → Bool → Bool → Vm → Flow Vm
  sub_imm size dst lhs rhs shift_factor sign_extend borrow set_flags vm = do
    right ← imm11_with_shift_factor rhs shift_factor sign_extend
    ok (sub_with size dst lhs right borrow set_flags vm)

unfoldable pub add_reg : Size → Option ℕ → ℕ → ℕ → Bool → Bool → Vm → Flow Vm
add_reg size dst lhs rhs carry set_flags vm =
    ok (add_with size dst lhs (get_signed (register vm rhs) size) carry set_flags vm)

unfoldable pub sub_reg : Size → Option ℕ → ℕ → ℕ → Bool → Bool → Vm → Flow Vm
sub_reg size dst lhs rhs borrow set_flags vm =
    ok (sub_with size dst lhs (get_signed (register vm rhs) size) borrow set_flags vm)

-- The zero and sign flags of a result, as `mul`, `div`, `neg` and the logical instructions set
-- them.
abbrev pub set_zero_and_sign : ℕ → Size → ℕ → ℕ
set_zero_and_sign flags size result =
    set_sign (set_zero flags (bit_and result (mask size) == 0))
      (bit_as_bool result (msb_index size))

unfoldable pub with_zero_and_sign : Vm → Bool → Size → ℕ → Vm
with_zero_and_sign vm set_flags size result =
    if set_flags then record vm { flags = set_zero_and_sign vm.flags size result } else vm

module _ ⦃platform : Platform⦄ where
  -- `*` on two `i64` and on two `u64`.
  unfoldable pub checked_product : Bool → ℕ → ℕ → Flow ℕ
  checked_product signed lhs rhs =
      let overflows = if signed then i64_mul_overflows lhs rhs else leb (2 ^ 64) (lhs * rhs) in
      if platform.overflow_checks && overflows then panic else ok (wrapping_mul lhs rhs)

  unfoldable pub mul : Size → Size → ℕ → ℕ → ℕ → Bool → Bool → Vm → Flow Vm
  mul src_size dst_size dst lhs rhs signed set_flags vm = do
    let left =
        if signed
        then get_signed (register vm lhs) src_size
        else get_unsigned (register vm lhs) src_size
    let right =
        if signed
        then get_signed (register vm rhs) src_size
        else get_unsigned (register vm rhs) src_size
    result ← checked_product signed left right
    ok (with_zero_and_sign (set_sized_register vm dst dst_size result) set_flags dst_size result)

  -- `-src`
  unfoldable pub neg : Size → ℕ → ℕ → Bool → Vm → Flow Vm
  neg size dst src set_flags vm =
      let value = get_signed (register vm src) size in
      let result = negate value in
      if platform.overflow_checks && value == 2 ^ 63
      then panic
      else ok (with_zero_and_sign (set_sized_register vm dst size result) set_flags size result)

-- `/` and `%`: both panic on a zero divisor, and on `i64::MIN / -1`, whatever the profile.
unfoldable pub quotient_and_remainder : Bool → ℕ → ℕ → Flow (ℕ × ℕ)
quotient_and_remainder signed lhs rhs =
    if rhs == 0 || (signed && (lhs == 2 ^ 63 && rhs == all_bits))
    then panic
    else if signed
    then ok (
      with_sign (if is_negative lhs then not (is_negative rhs) else is_negative rhs)
          (magnitude lhs / magnitude rhs),
      with_sign (is_negative lhs) (magnitude lhs % magnitude rhs),
    )
    else ok (lhs / rhs, lhs % rhs)

unfoldable pub div : Size → ℕ → ℕ → ℕ → ℕ → Bool → Bool → Vm → Flow Vm
div size quot rem lhs rhs signed set_flags vm = do
  let left =
      if signed then get_signed (register vm lhs) size else get_unsigned (register vm lhs) size
  let right =
      if signed then get_signed (register vm rhs) size else get_unsigned (register vm rhs) size
  (result_quot, result_rem) ← quotient_and_remainder signed left right
  let kept = if quot == rem then vm else set_sized_register vm rem size result_rem
  ok (with_zero_and_sign (set_sized_register kept quot size result_quot) set_flags size result_quot)

-- The macro `compare!`.
unfoldable pub compare_registers : Size → ℕ → ℕ → Bool → Condition → Vm → Bool
compare_registers size lhs rhs borrow cond vm =
    let left = get_signed (register vm lhs) size in
    let right = get_signed (register vm rhs) size in
    let result = wrapping_sub (wrapping_sub left right) (carry_in borrow vm) in
    let out = sub_outcome size left right result in
    test cond out.carry_bit out.zero_bit out.overflow_bit out.sign_bit
