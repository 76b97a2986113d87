-- ===== src/Emu/Logic.antt =====
-- `and`, `or`, `xor`, the shifts, `rot` and `bswap`.
pub mod Shifts
use acca.Prelude.{
  ℕ, ◌-◌, ◌%◌, ◌^◌, bit_and, bit_or, bit_xor, Bool, false, not, ◌&&◌, Option, ltb, ◌==◌,
  if◌then◌else◌,
}
use mathlib.Core.List.{reverse}
use acca.Word.{all_bits, shl, shr, arithmetic_shr, rotate_right, to_le_bytes, from_le_bytes}
use acca.Emu.Platform.{Platform}
use acca.Emu.Util.Bit.{bit_as_bool}
use acca.Emu.Util.Size.{Size, byte, double_byte, quad_byte, word, bit_size, msb_index, mask}
use acca.Emu.Util.Register.{get_unsigned}
use acca.Emu.Util.Flags.{set_carry, set_zero, set_overflow, set_sign}
use acca.Emu.State.{Vm, register, Flow, ok, ◌>>=◌}
use acca.Emu.Memory.{set_sized_register, set_destination}
use acca.Emu.Arithmetic.{imm11_with_shift_factor}

-- `set_overflow(false)`, then the zero and the sign flag of the result.
unfoldable pub logic_flags : ℕ → Size → ℕ → ℕ
logic_flags flags size result =
    set_sign (set_zero (set_overflow flags false) (bit_and result (mask size) == 0))
      (bit_as_bool result (msb_index size))

-- The common part of `and`, `or` and `xor`, from the two operand values.
unfoldable pub logic_with : (ℕ → ℕ → ℕ) → Size → Option ℕ → ℕ → ℕ → Bool → Vm → Vm
logic_with op size dst lhs rhs set_flags vm =
    let result = op (get_unsigned (register vm lhs) size) rhs in
    let written = set_destination vm dst size result in
    if set_flags then record written { flags = logic_flags written.flags size result } else written

unfoldable pub and_reg : Size → Option ℕ → ℕ → ℕ → Bool → Vm → Flow Vm
and_reg size dst lhs rhs set_flags vm =
    ok (logic_with bit_and size dst lhs (get_unsigned (register vm rhs) size) set_flags vm)

unfoldable pub or_reg : Size → Option ℕ → ℕ → ℕ → Bool → Vm → Flow Vm
or_reg size dst lhs rhs set_flags vm =
    ok (logic_with bit_or size dst lhs (get_unsigned (register vm rhs) size) set_flags vm)

unfoldable pub xor_reg : Size → Option ℕ → ℕ → ℕ → Bool → Vm → Flow Vm
xor_reg size dst lhs rhs set_flags vm =
    ok (logic_with bit_xor size dst lhs (get_unsigned (register vm rhs) size) set_flags vm)

module _ ⦃platform : Platform⦄ where
  unfoldable pub and_imm : Size → Option ℕ → ℕ → ℕ → ℕ → Bool → Bool → Vm → Flow Vm
  and_imm size dst lhs rhs shift_factor sign_extend set_flags vm = do
    right ← imm11_with_shift_factor rhs shift_factor sign_extend
    ok (logic_with bit_and size dst lhs right set_flags vm)

  unfoldable pub or_imm : Size → Option ℕ → ℕ → ℕ → ℕ → Bool → Bool → Vm → Flow Vm
  or_imm size dst lhs rhs shift_factor sign_extend set_flags vm = do
    right ← imm11_with_shift_factor rhs shift_factor sign_extend
    ok (logic_with bit_or size dst lhs right set_flags vm)

  unfoldable pub xor_imm : Size → Option ℕ → ℕ → ℕ → ℕ → Bool → Bool → Vm → Flow Vm
  xor_imm size dst lhs rhs shift_factor sign_extend set_flags vm = do
    right ← imm11_with_shift_factor rhs shift_factor sign_extend
    ok (logic_with bit_xor size dst lhs right set_flags vm)

-- The flags of a shift by `rhs`, whose last bit shifted out is bit `out` of `lhs`.
unfoldable pub shift_flags : ℕ → Size → ℕ → ℕ → ℕ → ℕ → ℕ
unfolding logic_flags
shift_flags flags size lhs rhs out result =
    let carried = if not (rhs == 0) then set_carry flags (bit_as_bool lhs out) else flags in
    logic_flags carried size result

-- `shl` and `shr` by the amount `rhs`.
unfoldable pub shl_with : Size → Option ℕ → ℕ → ℕ → Bool → Vm → Vm
shl_with size dst lhs rhs set_flags vm =
    let left = get_unsigned (register vm lhs) size in
    let too_big = not (ltb rhs (bit_size size)) in
    let result = if too_big then 0 else shl left rhs in
    let written = set_destination vm dst size result in
    let out = if too_big then 0 else bit_size size - rhs in
    if set_flags
    then record written { flags = shift_flags written.flags size left rhs out result }
    else written

unfoldable pub shr_value : Size → Bool → ℕ → ℕ → ℕ
shr_value size signed left rhs =
    if not (ltb rhs (bit_size size))
    then (if signed && bit_as_bool left (msb_index size) then all_bits else 0)
    else (if signed then arithmetic_shr left rhs else shr left rhs)

unfoldable pub shr_with : Size → Option ℕ → ℕ → ℕ → Bool → Bool → Vm → Vm
shr_with size dst lhs rhs signed set_flags vm =
    let left = get_unsigned (register vm lhs) size in
    let too_big = not (ltb rhs (bit_size size)) in
    let result = shr_value size signed left rhs in
    let written = set_destination vm dst size result in
    let out = if too_big then msb_index size else rhs - 1 in
    if set_flags
    then record written { flags = shift_flags written.flags size left rhs out result }
    else written

unfoldable pub shl_reg : Size → Option ℕ → ℕ → ℕ → Bool → Vm → Flow Vm
shl_reg size dst lhs rhs set_flags vm =
    ok (shl_with size dst lhs (get_unsigned (register vm rhs) size) set_flags vm)

unfoldable pub shl_imm : Size → Option ℕ → ℕ → ℕ → Bool → Vm → Flow Vm
shl_imm size dst lhs rhs set_flags vm = ok (shl_with size dst lhs rhs set_flags vm)

unfoldable pub shr_reg : Size → Option ℕ → ℕ → ℕ → Bool → Bool → Vm → Flow Vm
shr_reg size dst lhs rhs signed set_flags vm =
    ok (shr_with size dst lhs (get_unsigned (register vm rhs) size) signed set_flags vm)

unfoldable pub shr_imm : Size → Option ℕ → ℕ → ℕ → Bool → Bool → Vm → Flow Vm
shr_imm size dst lhs rhs signed set_flags vm = ok (shr_with size dst lhs rhs signed set_flags vm)

-- `rot` by the amount `rhs`; only the sign flag is set.
unfoldable pub rot_with : Size → Option ℕ → ℕ → ℕ → Bool → Vm → Vm
rot_with size dst lhs rhs set_flags vm =
    let left = get_unsigned (register vm lhs) size in
    let width = bit_size size in
    let result = rotate_right width (left % 2 ^ width) (rhs % width) in
    let written = set_destination vm dst size result in
    if set_flags
    then record written { flags = set_sign written.flags (bit_as_bool result (msb_index size)) }
    else written

unfoldable pub rot_reg : Size → Option ℕ → ℕ → ℕ → Bool → Vm → Flow Vm
rot_reg size dst lhs rhs set_flags vm =
    ok (rot_with size dst lhs (get_unsigned (register vm rhs) size) set_flags vm)

unfoldable pub rot_imm : Size → Option ℕ → ℕ → ℕ → Bool → Vm → Flow Vm
rot_imm size dst lhs rhs set_flags vm = ok (rot_with size dst lhs rhs set_flags vm)

-- `swap_bytes` on the width of the operation.
unfoldable pub swapped : Size → ℕ → ℕ
swapped byte src = src
swapped double_byte src = from_le_bytes (reverse (to_le_bytes 2 (src % 2 ^ 16)))
swapped quad_byte src = from_le_bytes (reverse (to_le_bytes 4 (src % 2 ^ 32)))
swapped word src = from_le_bytes (reverse (to_le_bytes 8 src))

unfoldable pub bswap : Size → ℕ → ℕ → Bool → Vm → Flow Vm
bswap size dst src set_flags vm =
    let result = swapped size (get_unsigned (register vm src) size) in
    let written = set_sized_register vm dst size result in
    ok (
      if set_flags
      then record written { flags = set_sign written.flags (bit_as_bool result (msb_index size)) }
      else written)
