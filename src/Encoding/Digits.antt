-- ===== src/Encoding/Digits.antt =====
-- The loops of `Encoding.Scan` as recursions on the binary digits.
use acca.Prelude.{
  ℕ, ◌+◌, ◌*◌, ◌/◌, ◌%◌, ◌^◌, ◌<◌, bit_and, bit_or, ◌≡◌, ap, ◌∙◌, arith, Bool, true, ◌&&◌, List, [],
  ◌∷◌, ◌==◌, if◌then◌else◌,
}
use native.Mathlib.Numerals.{add-one}
use acca.Bits.Step.{bit_and_step}
use acca.Bits.Power.{two-pow-double}
use acca.Bits.Mask.{bit_and-zero, bit_or_fields}
use acca.Encoding.Scan.{
  InstructionBit, zero_bit, one_bit, variable, is_variable, required_mask, required_mask_value,
  matches,
}

-- The word has the fixed bits of the encoding.
abbrev pub fits : List InstructionBit → ℕ → Bool
fits [] e = true
fits (zero_bit ∷ bits) e = e % 2 == 0 && fits bits (e / 2)
fits (one_bit ∷ bits) e = e % 2 == 1 && fits bits (e / 2)
fits (variable char ∷ bits) e = fits bits (e / 2)

abbrev pub field : ℕ → List InstructionBit → ℕ → ℕ
field name [] e = 0
field name (bit ∷ bits) e =
    let rest = field name bits (e / 2) in if is_variable name bit then e % 2 + 2 * rest else rest

abbrev pub halve : (ℕ → ℕ) → ℕ → ℕ → ℕ
halve values char name = if char == name then values name / 2 else values name

abbrev pub build : List InstructionBit → (ℕ → ℕ) → ℕ
build [] values = 0
build (zero_bit ∷ bits) values = 2 * build bits values
build (one_bit ∷ bits) values = 1 + 2 * build bits values
build (variable char ∷ bits) values = values char % 2 + 2 * build bits (halve values char)

abbrev mask_of : List InstructionBit → ℕ
mask_of [] = 0
mask_of (zero_bit ∷ bits) = 1 + 2 * mask_of bits
mask_of (one_bit ∷ bits) = 1 + 2 * mask_of bits
mask_of (variable char ∷ bits) = 2 * mask_of bits

abbrev value_of : List InstructionBit → ℕ
value_of [] = 0
value_of (zero_bit ∷ bits) = 2 * value_of bits
value_of (one_bit ∷ bits) = 1 + 2 * value_of bits
value_of (variable char ∷ bits) = 2 * value_of bits

pub two-pow-add-one : (i : ℕ) → 2 ^ (i + 1) ≡ 2 * 2 ^ i
two-pow-add-one i = rw add-one (two-pow-double i)

-- A digit in front of what was gathered below `2 ^ i`.
module _ (i m : ℕ) (below : m < 2 ^ i) where
  bit_or-fresh : bit_or m (2 ^ i) ≡ m + 2 ^ i
  bit_or-fresh = omega (arith, bit_or_fields i 1 m below, ap (bit_or m) (once (2 ^ i)))
    where
      once : (p : ℕ) → p ≡ 1 * p
      once p = omega arith

  pub still_below : m < 2 ^ (i + 1)
  still_below = omega (arith, two-pow-add-one i)

  pub fresh_below : bit_or m (2 ^ i) < 2 ^ (i + 1)
  fresh_below = omega (arith, two-pow-add-one i, bit_or-fresh)

  pub shift_rest : (rest : ℕ) → m + 2 ^ (i + 1) * rest ≡ m + 2 ^ i * (2 * rest)
  shift_rest rest = omega (arith, ap (λ (t : ℕ). t * rest) (two-pow-add-one i))

  pub fresh_rest : (rest : ℕ) → bit_or m (2 ^ i) + 2 ^ (i + 1) * rest ≡ m + 2 ^ i * (1 + 2 * rest)
  fresh_rest rest = omega (arith, bit_or-fresh, ap (λ (t : ℕ). t * rest) (two-pow-add-one i))

required_mask_lem :
    (bits : List InstructionBit) (i m : ℕ)
    → m < 2 ^ i
    → required_mask bits i m ≡ m + 2 ^ i * mask_of bits
unfolding required_mask
required_mask_lem [] i m h = omega arith
required_mask_lem (zero_bit ∷ bits) i m h =
    required_mask_lem bits (i + 1) _ (fresh_below i m h) ∙ fresh_rest i m h (mask_of bits)
required_mask_lem (one_bit ∷ bits) i m h =
    required_mask_lem bits (i + 1) _ (fresh_below i m h) ∙ fresh_rest i m h (mask_of bits)
required_mask_lem (variable char ∷ bits) i m h =
    required_mask_lem bits (i + 1) m (still_below i m h) ∙ shift_rest i m h (mask_of bits)

required_mask_value_lem :
    (bits : List InstructionBit) (i m : ℕ)
    → m < 2 ^ i
    → required_mask_value bits i m ≡ m + 2 ^ i * value_of bits
unfolding required_mask_value
required_mask_value_lem [] i m h = omega arith
required_mask_value_lem (zero_bit ∷ bits) i m h =
    required_mask_value_lem bits (i + 1) m (still_below i m h) ∙ shift_rest i m h (value_of bits)
required_mask_value_lem (one_bit ∷ bits) i m h =
    required_mask_value_lem bits (i + 1) _ (fresh_below i m h) ∙ fresh_rest i m h (value_of bits)
required_mask_value_lem (variable char ∷ bits) i m h =
    required_mask_value_lem bits (i + 1) m (still_below i m h) ∙ shift_rest i m h (value_of bits)

odd_half : (t : ℕ) → (1 + 2 * t) / 2 ≡ t
odd_half t = omega arith

even_half : (t : ℕ) → 2 * t / 2 ≡ t
even_half t = omega arith

-- Comparing under the mask is comparing digit by digit.
masked_fits :
    (bits : List InstructionBit) (e : ℕ) → (bit_and e (mask_of bits) == value_of bits) ≡ fits bits e
masked_fits [] e = ground (arith, bit_and-zero e)
masked_fits (zero_bit ∷ bits) e = ground (
  arith,
  bit_and_step e (1 + 2 * mask_of bits),
  ap (bit_and (e / 2)) (odd_half (mask_of bits)),
  masked_fits bits (e / 2),
)
masked_fits (one_bit ∷ bits) e = ground (
  arith,
  bit_and_step e (1 + 2 * mask_of bits),
  ap (bit_and (e / 2)) (odd_half (mask_of bits)),
  masked_fits bits (e / 2),
)
masked_fits (variable char ∷ bits) e = ground (
  arith,
  bit_and_step e (2 * mask_of bits),
  ap (bit_and (e / 2)) (even_half (mask_of bits)),
  masked_fits bits (e / 2),
)

pub matches-eq-fits : (bits : List InstructionBit) (e : ℕ) → matches bits e ≡ fits bits e
unfolding matches
matches-eq-fits bits e = ground (
  arith,
  required_mask_lem bits 0 0 (omega arith),
  required_mask_value_lem bits 0 0 (omega arith),
  masked_fits bits e,
)
