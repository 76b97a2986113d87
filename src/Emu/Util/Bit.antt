-- ===== src/Emu/Util/Bit.antt =====
-- `BitBool` for `u64`, and the extension of immediates.
pub mod Laws
use acca.Prelude.{ℕ, ◌-◌, bit_and, bit_or, Bool, not, ◌==◌, if◌then◌else◌}
use acca.Word.{all_bits, bit_not, shl, checked_shl, checked_shr, unwrap_or}

-- The callers give an index below 64.
unfoldable pub bit_as_bool : ℕ → ℕ → Bool
bit_as_bool x index = not (bit_and x (shl 1 index) == 0)

unfoldable pub set_bit_with_bool : ℕ → ℕ → Bool → ℕ
set_bit_with_bool x index value =
    if value then bit_or x (shl 1 index) else bit_and x (bit_not (shl 1 index))

unfoldable pub zero_extend_immediate : ℕ → ℕ → ℕ
zero_extend_immediate immediate width =
    let mask = unwrap_or (checked_shr all_bits (64 - width)) 0 in bit_and immediate mask

unfoldable pub sign_extend_immediate : ℕ → ℕ → ℕ
unfolding zero_extend_immediate
sign_extend_immediate immediate width =
    let masked = zero_extend_immediate immediate width in
    let msb = shl 1 (width - 1) in
    if not (bit_and masked msb == 0)
    then bit_or masked (unwrap_or (checked_shl all_bits width) 0)
    else masked
