-- ===== src/Encoding/Gather.antt =====
-- The loops that read and write the variables of an encoding, as recursions on the digits.
use native.Mathlib.Nat.{div-div-eq-div-mul, mul-div_cancel, div-one}
use mathlib.Core.Path.{fun_ext}
use acca.Prelude.{
  ℕ, ◌+◌, ◌*◌, ◌/◌, ◌%◌, ◌^◌, ◌<◌, bit_and, bit_or, ◌≡◌, refl, ap, ◌∙◌, arith, List, [], ◌∷◌, ◌==◌,
  inl, inr, Bool-cases,
}
use acca.Bits.Power.{two-pow-pos}
use acca.Bits.Mask.{bit_and_bit, bit_or_fields}
use acca.Encoding.Scan.{
  InstructionBit, zero_bit, one_bit, variable, is_variable, gather, variable_value, next_index,
  encode_from, encode,
}
use acca.Encoding.Digits.{
  field, build, halve, two-pow-add-one, still_below, shift_rest, fresh_below, fresh_rest,
}

div-two-pow-add-one : (i e : ℕ) → e / 2 ^ (i + 1) ≡ e / 2 ^ i / 2
div-two-pow-add-one i e = omega (
  arith,
  div-div-eq-div-mul e (2 ^ i) 2,
  ap (λ (t : ℕ). e / t) (two-pow-add-one i ∙ swap (2 ^ i)),
)
  where
    swap : (p : ℕ) → 2 * p ≡ p * 2
    swap p = omega arith

-- `(encoded & (1 << i)) >> i`
isolated : (i e : ℕ) → bit_and e (2 ^ i) / 2 ^ i ≡ e / 2 ^ i % 2
isolated i e = rw (bit_and_bit i e) (mul-div_cancel (e / 2 ^ i % 2) (two-pow-pos i))

-- A digit placed above what was gathered below `2 ^ dest`.
module _ (dest stream digit : ℕ) (below : stream < 2 ^ dest) (small : digit < 2) where
  placed : bit_or stream (digit * 2 ^ dest) ≡ stream + digit * 2 ^ dest
  placed = omega (arith, bit_or_fields dest digit stream below)

  placed_below : bit_or stream (digit * 2 ^ dest) < 2 ^ (dest + 1)
  placed_below = grind (arith, placed, two-pow-add-one dest)

  placed_rest :
      (rest : ℕ)
      → bit_or stream (digit * 2 ^ dest) + 2 ^ (dest + 1) * rest
        ≡ stream + 2 ^ dest * (digit + 2 * rest)
  placed_rest rest = omega (arith, placed, ap (λ (t : ℕ). t * rest) (two-pow-add-one dest))

gather_lem :
    (name : ℕ) (bits : List InstructionBit) (e i dest stream : ℕ)
    → stream < 2 ^ dest
    → gather name bits e i dest stream ≡ stream + 2 ^ dest * field name bits (e / 2 ^ i)
unfolding gather
gather_lem name [] e i dest stream h = omega arith
gather_lem name (bit ∷ bits) e i dest stream h = elim (Bool-cases (is_variable name bit)) [
  | inl here ↦
      rw (here, isolated i e)
        (gather_lem name bits e (i + 1) (dest + 1) _ (placed_below dest stream _ h (omega arith))
          ∙ rw div-two-pow-add-one (placed_rest dest stream _ h (omega arith) _))
  | inr there ↦
      rw there (gather_lem name bits e (i + 1) dest stream h ∙ rw div-two-pow-add-one refl)
]

-- Taking a digit of `char` halves what is left of its value.
next_index_halves :
    (values indices : ℕ → ℕ) (char name : ℕ)
    → values name / 2 ^ next_index indices char name
      ≡ halve (λ name. values name / 2 ^ indices name) char name
next_index_halves values indices char name = elim (Bool-cases (char == name)) [
  | inl same ↦ rw same (div-two-pow-add-one (indices name) (values name))
  | inr other ↦ rw other refl
]

module _ (values : ℕ → ℕ) where
  -- What is left to be written of each value.
  abbrev left_over : (ℕ → ℕ) → ℕ → ℕ
  left_over indices name = values name % 2 ^ 32 / 2 ^ indices name

  encode_from_lem :
      (bits : List InstructionBit) (idx : ℕ) (indices : ℕ → ℕ) (result : ℕ)
      → result < 2 ^ idx
      → encode_from values bits idx indices result
        ≡ result + 2 ^ idx * build bits (left_over indices)
  unfolding encode_from
  encode_from_lem [] idx indices result h = omega arith
  encode_from_lem (zero_bit ∷ bits) idx indices result h =
      encode_from_lem bits (idx + 1) indices result (still_below idx result h)
      ∙ shift_rest idx result h _
  encode_from_lem (one_bit ∷ bits) idx indices result h =
      encode_from_lem bits (idx + 1) indices _ (fresh_below idx result h)
      ∙ fresh_rest idx result h _
  encode_from_lem (variable char ∷ bits) idx indices result h =
      rw (isolated (indices char) (values char % 2 ^ 32)) (
        encode_from_lem bits (idx + 1) (next_index indices char) _
          (placed_below idx result _ h (omega arith))
        ∙ placed_rest idx result _ h (omega arith) _
        ∙ ap (λ rest. result + 2 ^ idx * (left_over indices char % 2 + 2 * build bits rest))
            (fun_ext (next_index_halves (λ name. values name % 2 ^ 32) indices char)))

pub variable_value-eq-field :
    (name : ℕ) (bits : List InstructionBit) (e : ℕ) → variable_value name bits e ≡ field name bits e
unfolding variable_value
variable_value-eq-field name bits e =
    gather_lem name bits e 0 0 0 (omega arith) ∙ rw (div-one e) (omega arith)

pub encode-eq-build :
    (bits : List InstructionBit) (values : ℕ → ℕ)
    → encode bits values ≡ build bits (λ name. values name % 2 ^ 32)
unfolding encode
encode-eq-build bits values =
    encode_from_lem values bits 0 (λ name. 0) 0 (omega arith)
    ∙ rw (fun_ext (λ name. div-one (values name % 2 ^ 32))) (omega arith)
