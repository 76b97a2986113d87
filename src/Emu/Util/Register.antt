-- ===== src/Emu/Util/Register.antt =====
-- `Register`, `RegisterID` and `RegisterFile`.
pub mod Sized
use acca.Prelude.{
  ℕ, ◌*◌, bit_and, bit_or, Option, none, some, List, get_or, set, replicate, ltb, if◌then◌else◌,
}
use acca.Word.{all_bits, bit_not, checked_shl, unwrap_or}
use acca.Emu.Util.Bit.{zero_extend_immediate, sign_extend_immediate}
use acca.Emu.Util.Size.{Size, byte_size}

unfoldable pub get_unsigned : ℕ → Size → ℕ
get_unsigned register size = zero_extend_immediate register (byte_size size * 8)

-- The `i64` as a bit pattern.
unfoldable pub get_signed : ℕ → Size → ℕ
get_signed register size = sign_extend_immediate register (byte_size size * 8)

unfoldable pub set_sized : ℕ → Size → ℕ → ℕ
set_sized register size value =
    let preserve_mask = unwrap_or (checked_shl all_bits (byte_size size * 8)) 0 in
    bit_or (bit_and register preserve_mask) (bit_and value (bit_not preserve_mask))

abbrev pub sp : ℕ
sp = 13

abbrev pub lr : ℕ
lr = 15

-- `From<u64> for RegisterID`; `none` is its panic.
unfoldable pub register_from : ℕ → Option ℕ
register_from value = if ltb value 16 then some value else none

-- Sixteen registers. A `RegisterID` is below 16, so indexing stays in range.
abbrev pub RegisterFile : Type 0
RegisterFile = List ℕ

abbrev pub new_register_file : RegisterFile
new_register_file = replicate 16 0

abbrev pub index : RegisterFile → ℕ → ℕ
index file id = get_or file id 0

abbrev pub index_set : RegisterFile → ℕ → ℕ → RegisterFile
index_set file id value = set file id value
