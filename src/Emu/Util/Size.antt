-- ===== src/Emu/Util/Size.antt =====
-- `Size`.
use acca.Prelude.{
  ℕ, zero, suc, ◌-◌, ◌*◌, ◌%◌, ◌^◌, Bool, Option, none, some, List, [], ◌∷◌, get_or, if◌then◌else◌,
}
use acca.Word.{all_bits, shl, shr}
use acca.Emu.Platform.{Platform}
use acca.Emu.Util.Bit.{sign_extend_immediate}

pub data Size : Type 0 where
  byte double_byte quad_byte word : Size

abbrev pub byte_size : Size → ℕ
byte_size byte = 1
byte_size double_byte = 2
byte_size quad_byte = 4
byte_size word = 8

abbrev pub bit_size : Size → ℕ
bit_size size = byte_size size * 8

abbrev pub msb_index : Size → ℕ
msb_index size = bit_size size - 1

abbrev pub msb_mask : Size → ℕ
msb_mask size = shl 1 (msb_index size)

abbrev pub mask : Size → ℕ
mask size = shr all_bits (64 - bit_size size)

-- `From<u64> for Size`; `none` is its panic.
unfoldable pub size_from : ℕ → Option Size
size_from zero = some byte
size_from (suc zero) = some double_byte
size_from (suc (suc zero)) = some quad_byte
size_from (suc (suc (suc zero))) = some word
size_from (suc (suc (suc (suc n)))) = none

module _ ⦃platform : Platform⦄ where
  read_value : Size → List ℕ → ℕ
  read_value byte src = get_or src 0 0
  read_value double_byte src = platform.read_u16 src
  read_value quad_byte src = platform.read_u32 src
  read_value word src = platform.read_u64 src

  -- The slices that the callers give have `byte_size` bytes.
  unfoldable pub read : Size → List ℕ → Bool → ℕ
  unfolding read_value
  read size src sign_extend =
      let val = read_value size src in
      if sign_extend then sign_extend_immediate val (byte_size size * 8) else val

  -- The bytes that `write` puts into its slice.
  unfoldable pub write : Size → ℕ → List ℕ
  write byte src = (src % 2 ^ 8) ∷ []
  write double_byte src = platform.write_u16 (src % 2 ^ 16)
  write quad_byte src = platform.write_u32 (src % 2 ^ 32)
  write word src = platform.write_u64 src
