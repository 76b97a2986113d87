-- ===== src/Encoding/Scan.antt =====
-- The macros' loops over the bits of an encoding, as written. A variable is the code of its
-- character.
use Prim.Native.Char.{code}
use Prim.Native.String.{String}
use mathlib.Core.List.{reverse}
use acca.Prelude.{
  ℕ, ◌+◌, ◌*◌, ◌/◌, ◌%◌, ◌^◌, bit_and, bit_or, Bool, false, List, [], ◌∷◌, ◌==◌, if◌then◌else◌,
}

pub data InstructionBit : Type 0 where
  zero_bit one_bit : InstructionBit
  variable : ℕ → InstructionBit

abbrev pub bit_of : ℕ → InstructionBit
bit_of char = if char == b'0' then zero_bit else if char == b'1' then one_bit else variable char

abbrev pub chars : String → List InstructionBit
chars String.[] = []
chars (String.◌∷◌ ch string) = bit_of (code ch) ∷ chars string

-- `encoding_str.chars().rev()`: the lowest bit comes first.
abbrev pub bits_of : String → List InstructionBit
bits_of string = reverse (chars string)

abbrev pub is_variable : ℕ → InstructionBit → Bool
is_variable name zero_bit = false
is_variable name one_bit = false
is_variable name (variable char) = char == name

-- `1u32 << i` for `i < 32`.
abbrev pub bit_at : ℕ → ℕ
bit_at i = 2 ^ i

-- `required_mask` and `required_mask_value`, from bit `i` on.
unfoldable pub required_mask : List InstructionBit → ℕ → ℕ → ℕ
required_mask [] i mask = mask
required_mask (zero_bit ∷ bits) i mask = required_mask bits (i + 1) (bit_or mask (bit_at i))
required_mask (one_bit ∷ bits) i mask = required_mask bits (i + 1) (bit_or mask (bit_at i))
required_mask (variable char ∷ bits) i mask = required_mask bits (i + 1) mask

unfoldable pub required_mask_value : List InstructionBit → ℕ → ℕ → ℕ
required_mask_value [] i value = value
required_mask_value (zero_bit ∷ bits) i value = required_mask_value bits (i + 1) value
required_mask_value (one_bit ∷ bits) i value =
    required_mask_value bits (i + 1) (bit_or value (bit_at i))
required_mask_value (variable char ∷ bits) i value = required_mask_value bits (i + 1) value

-- The guard of an instruction's match arm.
unfoldable pub matches : List InstructionBit → ℕ → Bool
matches bits encoded = bit_and encoded (required_mask bits 0 0) == required_mask_value bits 0 0

-- The value of the variable `name`: `stream`, with `dest_bit` bits gathered so far.
unfoldable pub gather : ℕ → List InstructionBit → ℕ → ℕ → ℕ → ℕ → ℕ
gather name [] encoded i dest_bit stream = stream
gather name (bit ∷ bits) encoded i dest_bit stream =
    gather name bits encoded (i + 1) (if is_variable name bit then dest_bit + 1 else dest_bit) (
      if is_variable name bit
      then bit_or stream (bit_and encoded (bit_at i) / 2 ^ i * 2 ^ dest_bit)
      else stream)

unfoldable pub variable_value : ℕ → List InstructionBit → ℕ → ℕ
variable_value name bits encoded = gather name bits encoded 0 0 0

-- `*var_idx += 1` in the map `var_indices`.
abbrev pub next_index : (ℕ → ℕ) → ℕ → ℕ → ℕ
next_index indices char name = if char == name then indices name + 1 else indices name

-- The expression of `instruction_encoding!`; `values` gives the identifiers' values.
unfoldable pub encode_from : (ℕ → ℕ) → List InstructionBit → ℕ → (ℕ → ℕ) → ℕ → ℕ
encode_from values [] idx indices result = result
encode_from values (zero_bit ∷ bits) idx indices result =
    encode_from values bits (idx + 1) indices result
encode_from values (one_bit ∷ bits) idx indices result =
    encode_from values bits (idx + 1) indices (bit_or result (bit_at idx))
encode_from values (variable char ∷ bits) idx indices result =
    encode_from values bits (idx + 1) (next_index indices char) (
      bit_or result
        (bit_and (values char % 2 ^ 32) (bit_at (indices char)) / 2 ^ indices char * 2 ^ idx))

unfoldable pub encode : List InstructionBit → (ℕ → ℕ) → ℕ
encode bits values = encode_from values bits 0 (λ name. 0) 0
