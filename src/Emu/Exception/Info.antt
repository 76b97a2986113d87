-- ===== src/Emu/Exception/Info.antt =====
-- The fields of the exception info register.
use acca.Prelude.{
  ℕ, ◌+◌, ◌*◌, ◌/◌, ◌%◌, ◌^◌, ◌<◌, bit_or, ◌≡◌, refl, ap, ◌∙◌, arith, true, false, if◌then◌else◌,
}
use acca.Word.{shl}
use acca.Bits.Mask.{bit_or_fields}
use acca.Emu.Exception.{
  Exception, unknown, invalid_instruction, debug, user, invalid_operation, instruction_load_error,
  data_load_error, interrupt, id, exception_info,
}

-- The payload of an exception fits its field: 61 bits of a user exception or of an interrupt, and
-- 60 bits for the size of a data load.
abbrev pub Fits : Exception → Type 0
Fits (user value) = value < 2 ^ 61
Fits (interrupt value) = value < 2 ^ 61
Fits (data_load_error address write size) = size < 2 ^ 60
Fits unknown = Unit
Fits invalid_instruction = Unit
Fits debug = Unit
Fits invalid_operation = Unit
Fits instruction_load_error = Unit

-- What the info register holds above the id: the payload, and for a data load the access in bit 3
-- and the size from bit 4.
abbrev pub payload : Exception → ℕ
payload (user value) = value
payload (interrupt value) = value
payload (data_load_error address write size) = (if write then 1 else 0) + 2 * size
payload unknown = 0
payload invalid_instruction = 0
payload debug = 0
payload invalid_operation = 0
payload instruction_load_error = 0

with_three : (low value : ℕ) → low < 8 → value < 2 ^ 61 → bit_or low (shl value 3) ≡ value * 8 + low
with_three low value h h' =
    let shifted : shl value 3 ≡ value * 2 ^ 3 = omega (arith, h') in
    ap (bit_or low) shifted ∙ bit_or_fields 3 value low h

with_four :
    (low value : ℕ) → low < 16 → value < 2 ^ 60 → bit_or low (shl value 4) ≡ value * 16 + low
with_four low value h h' =
    let shifted : shl value 4 ≡ value * 2 ^ 4 = omega (arith, h') in
    ap (bit_or low) shifted ∙ bit_or_fields 4 value low h

-- If the payload fits, the low three bits of the info register are the id of the exception, and
-- the rest is the payload.
pub exception_info_lem :
    (exception : Exception)
    → Fits exception
    → (exception_info exception % 8 ≡ id exception)
      × (exception_info exception / 8 ≡ payload exception)
unfolding exception_info
exception_info_lem unknown h = (refl, refl)
exception_info_lem invalid_instruction h = (refl, refl)
exception_info_lem debug h = (refl, refl)
exception_info_lem (user value) h = (
  omega (arith, with_three 3 value (omega arith) h),
  omega (arith, with_three 3 value (omega arith) h),
)
exception_info_lem invalid_operation h = (refl, refl)
exception_info_lem instruction_load_error h = (refl, refl)
exception_info_lem (data_load_error address true size) h = (
  omega (arith, with_four 14 size (omega arith) h),
  omega (arith, with_four 14 size (omega arith) h),
)
exception_info_lem (data_load_error address false size) h = (
  omega (arith, with_four 6 size (omega arith) h),
  omega (arith, with_four 6 size (omega arith) h),
)
exception_info_lem (interrupt value) h = (
  omega (arith, with_three 7 value (omega arith) h),
  omega (arith, with_three 7 value (omega arith) h),
)
