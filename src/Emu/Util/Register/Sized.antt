-- ===== src/Emu/Util/Register/Sized.antt =====
-- `Register::get_unsigned`, `get_signed` and `set` as arithmetic.
use native.Mathlib.Nat.{div-add-mod'}
use acca.Prelude.{ℕ, ◌+◌, ◌-◌, ◌*◌, ◌/◌, ◌%◌, ◌^◌, ◌<◌, ◌≡◌, arith, if◌then◌else◌, ltb}
use acca.Word.{IsWord}
use acca.Bits.Mask.{
  bit_and_low, bit_and_high, bit_and_bit, bit_and-zero, zero-bit_or, bit_or-zero, bit_or_fields,
  bit_or_fields_high,
}
use acca.Emu.Util.Bit.{zero_extend_immediate, sign_extend_immediate}
use acca.Emu.Util.Size.{Size, byte, double_byte, quad_byte, word, bit_size}
use acca.Emu.Util.Register.{get_unsigned, get_signed, set_sized}

pub get_unsigned_lem :
    (register : ℕ) (size : Size) → get_unsigned register size ≡ register % 2 ^ bit_size size
unfolding get_unsigned zero_extend_immediate
get_unsigned_lem register byte = bit_and_low 8 register
get_unsigned_lem register double_byte = bit_and_low 16 register
get_unsigned_lem register quad_byte = bit_and_low 32 register
get_unsigned_lem register word = bit_and_low 64 register

-- The bits of the width, and copies of the top one of those above.
abbrev pub sign_extended : ℕ → ℕ → ℕ
sign_extended w x =
    let low = x % 2 ^ w in if ltb low (2 ^ w / 2) then low else low + (2 ^ 64 - 2 ^ w)

-- `get_signed` is sign extension from the width: the number below the width if its top bit is
-- clear, and that number moved up to the top of the 64-bit range if it is set.
pub get_signed_lem :
    (register : ℕ) (size : Size) → get_signed register size ≡ sign_extended (bit_size size) register
unfolding get_signed sign_extend_immediate
get_signed_lem register byte =
    rw (bit_and_low 8 register, bit_and_bit 7 (register % 2 ^ 8))
      (ground (arith, bit_or_fields 8 (2 ^ 56 - 1) (register % 2 ^ 8)))
get_signed_lem register double_byte =
    rw (bit_and_low 16 register, bit_and_bit 15 (register % 2 ^ 16))
      (ground (arith, bit_or_fields 16 (2 ^ 48 - 1) (register % 2 ^ 16)))
get_signed_lem register quad_byte =
    rw (bit_and_low 32 register, bit_and_bit 31 (register % 2 ^ 32))
      (ground (arith, bit_or_fields 32 (2 ^ 32 - 1) (register % 2 ^ 32)))
get_signed_lem register word =
    rw (bit_and_low 64 register, bit_and_bit 63 (register % 2 ^ 64))
      (ground (arith, bit_or-zero (register % 2 ^ 64)))

whole : (x k : ℕ) → x - x % 2 ^ k ≡ x / 2 ^ k * 2 ^ k
whole x k = omega (arith, div-add-mod' x (2 ^ k))

-- `set` replaces the bits of the width and keeps those above.
pub set_sized_lem :
    (register value : ℕ) (size : Size)
    → IsWord register
    → set_sized register size value
      ≡ register / 2 ^ bit_size size * 2 ^ bit_size size + value % 2 ^ bit_size size
unfolding set_sized
set_sized_lem register value byte h =
    rw (bit_and_high 8 64 register (omega arith) h, bit_and_low 8 value, whole register 8)
      (bit_or_fields_high 8 (register / 2 ^ 8) (value % 2 ^ 8) (omega arith))
set_sized_lem register value double_byte h =
    rw (bit_and_high 16 64 register (omega arith) h, bit_and_low 16 value, whole register 16)
      (bit_or_fields_high 16 (register / 2 ^ 16) (value % 2 ^ 16) (omega arith))
set_sized_lem register value quad_byte h =
    rw (bit_and_high 32 64 register (omega arith) h, bit_and_low 32 value, whole register 32)
      (bit_or_fields_high 32 (register / 2 ^ 32) (value % 2 ^ 32) (omega arith))
set_sized_lem register value word h =
    rw (bit_and-zero register, bit_and_low 64 value, zero-bit_or (value % 2 ^ 64)) (omega arith)

-- After `set` on a 64-bit register, reading at the same width gives the value cut to it, and the
-- bits above the width are as before.
pub get_unsigned-set_sized :
    (register value : ℕ) (size : Size)
    → IsWord register
    → (get_unsigned (set_sized register size value) size ≡ value % 2 ^ bit_size size)
      × (set_sized register size value / 2 ^ bit_size size ≡ register / 2 ^ bit_size size)
get_unsigned-set_sized register value size h =
    rw (get_unsigned_lem, set_sized_lem register value size h) (fields size)
  where
    fields :
        (size : Size)
        → ((register / 2 ^ bit_size size * 2 ^ bit_size size + value % 2 ^ bit_size size)
              % 2 ^ bit_size size
            ≡ value % 2 ^ bit_size size)
          × ((register / 2 ^ bit_size size * 2 ^ bit_size size + value % 2 ^ bit_size size)
                / 2 ^ bit_size size
              ≡ register / 2 ^ bit_size size)
    fields byte = omega arith
    fields double_byte = omega arith
    fields quad_byte = omega arith
    fields word = omega arith

pub set_sized-IsWord :
    (register value : ℕ) (size : Size) → IsWord register → IsWord (set_sized register size value)
set_sized-IsWord register value size h = rw (set_sized_lem register value size h) (bound size)
  where
    bound :
        (size : Size)
        → register / 2 ^ bit_size size * 2 ^ bit_size size + value % 2 ^ bit_size size < 2 ^ 64
    bound byte = omega arith
    bound double_byte = omega arith
    bound quad_byte = omega arith
    bound word = omega arith
