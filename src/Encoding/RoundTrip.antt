-- ===== src/Encoding/RoundTrip.antt =====
-- An encoded instruction decodes to its operands, and encodings that disagree in a fixed bit
-- share no word.
use native.Mathlib.Numerals.{add-one}
use mathlib.Core.Bool.{false≢true}
use acca.Prelude.{
  sym, ℕ, ◌+◌, ◌*◌, ◌/◌, ◌%◌, ◌^◌, ◌≡◌, refl, ap, ◌∙◌, arith, Bool, true, false, ◌||◌, List, [],
  ◌∷◌, ◌==◌, if◌then◌else◌, inl, inr, Bool-cases, ==_iff,
}
use acca.Bits.Power.{mod-two-pow-suc}
use acca.Encoding.Scan.{
  InstructionBit, zero_bit, one_bit, variable, is_variable, matches, variable_value, encode,
}
use acca.Encoding.Digits.{fits, field, build, halve, matches-eq-fits}
use acca.Encoding.Gather.{variable_value-eq-field, encode-eq-build}

-- The number of bits of a variable.
abbrev pub width : ℕ → List InstructionBit → ℕ
width name [] = 0
width name (bit ∷ bits) =
    let rest = width name bits in if is_variable name bit then rest + 1 else rest

pub even_half : (t : ℕ) → 2 * t / 2 ≡ t
even_half t = omega arith

pub even_digit : (t : ℕ) → 2 * t % 2 ≡ 0
even_digit t = omega arith

pub odd_half : (t : ℕ) → (1 + 2 * t) / 2 ≡ t
odd_half t = omega arith

pub odd_digit : (t : ℕ) → (1 + 2 * t) % 2 ≡ 1
odd_digit t = omega arith

pub digit_half : (d t : ℕ) → (d % 2 + 2 * t) / 2 ≡ t
digit_half d t = omega arith

pub digit_digit : (d t : ℕ) → (d % 2 + 2 * t) % 2 ≡ d % 2
digit_digit d t = omega arith

ruleset digit_laws = (even_half, even_digit, odd_half, odd_digit, digit_half, digit_digit)

fits-build : (bits : List InstructionBit) (values : ℕ → ℕ) → fits bits (build bits values) ≡ true
fits-build [] values = refl
fits-build (zero_bit ∷ bits) values = simp digit_laws (fits-build bits values)
fits-build (one_bit ∷ bits) values = simp digit_laws (fits-build bits values)
fits-build (variable char ∷ bits) values = simp digit_laws (fits-build bits (halve values char))

halve_same :
    (values : ℕ → ℕ) (char name : ℕ)
    → (char == name) ≡ true
    → halve values char name ≡ values name / 2
halve_same values char name same = rw same refl

field-build :
    (name : ℕ) (bits : List InstructionBit) (values : ℕ → ℕ)
    → field name bits (build bits values) ≡ values name % 2 ^ width name bits
field-build name [] values = omega arith
field-build name (zero_bit ∷ bits) values = simp digit_laws (field-build name bits values)
field-build name (one_bit ∷ bits) values = simp digit_laws (field-build name bits values)
field-build name (variable char ∷ bits) values = elim (Bool-cases (char == name)) [
  | inl same ↦
      let here : char ≡ name = (==_iff char name).0 same in
      rw (same, digit_half, digit_digit, field-build name bits (halve values char), add-one)
        (omega (
          arith,
          ap values here,
          halve_same values char name same,
          ap (λ (v : ℕ). v % 2 ^ width name bits) (halve_same values char name same),
          mod-two-pow-suc (width name bits) (values name),
        ))
  | inr other ↦
      rw (other, digit_half, field-build name bits (halve values char), halve) (rw other refl)
]

-- An encoded word passes the guard of its own encoding.
pub matches-encode :
    (bits : List InstructionBit) (values : ℕ → ℕ) → matches bits (encode bits values) ≡ true
matches-encode bits values =
    rw (matches-eq-fits, encode-eq-build) (fits-build bits (λ name. values name % 2 ^ 32))

-- The decoder reads each operand back, cut to the width of its variable.
pub variable_value-encode :
    (name : ℕ) (bits : List InstructionBit) (values : ℕ → ℕ)
    → variable_value name bits (encode bits values) ≡ values name % 2 ^ 32 % 2 ^ width name bits
variable_value-encode name bits values =
    rw (variable_value-eq-field, encode-eq-build)
      (field-build name bits (λ name. values name % 2 ^ 32))

abbrev clash : InstructionBit → InstructionBit → Bool
clash zero_bit one_bit = true
clash one_bit zero_bit = true
clash _ _ = false

-- Two encodings fix some bit differently.
abbrev pub conflict : List InstructionBit → List InstructionBit → Bool
conflict [] others = false
conflict (bit ∷ bits) [] = false
conflict (bit ∷ bits) (other ∷ others) = clash bit other || conflict bits others

fits-conflict :
    (bits others : List InstructionBit) (e : ℕ)
    → conflict bits others ≡ true
    → fits bits e ≡ true
    → fits others e ≡ false
fits-conflict [] others e c f = cc
fits-conflict (bit ∷ bits) [] e c f = cc
fits-conflict (zero_bit ∷ bits) (zero_bit ∷ others) e c f =
    ground (arith, fits-conflict bits others (e / 2))
fits-conflict (zero_bit ∷ bits) (one_bit ∷ others) e c f = ground arith
fits-conflict (zero_bit ∷ bits) (variable b ∷ others) e c f =
    ground (arith, fits-conflict bits others (e / 2))
fits-conflict (one_bit ∷ bits) (zero_bit ∷ others) e c f = ground arith
fits-conflict (one_bit ∷ bits) (one_bit ∷ others) e c f =
    ground (arith, fits-conflict bits others (e / 2))
fits-conflict (one_bit ∷ bits) (variable b ∷ others) e c f =
    ground (arith, fits-conflict bits others (e / 2))
fits-conflict (variable a ∷ bits) (zero_bit ∷ others) e c f =
    ground (arith, fits-conflict bits others (e / 2))
fits-conflict (variable a ∷ bits) (one_bit ∷ others) e c f =
    ground (arith, fits-conflict bits others (e / 2))
fits-conflict (variable a ∷ bits) (variable b ∷ others) e c f =
    fits-conflict bits others (e / 2) c f

-- A word that passes the guard of one encoding fails that of each encoding which fixes some bit
-- differently.
pub matches-conflict :
    (bits others : List InstructionBit) (e : ℕ)
    → conflict bits others ≡ true
    → matches others e ≡ true
    → matches bits e ≡ false
matches-conflict bits others e c m = elim (Bool-cases (fits bits e)) [
  | inl both ↦
      absurd
        (false≢true (sym (fits-conflict bits others e c both) ∙ sym (matches-eq-fits others e) ∙ m))
  | inr apart ↦ matches-eq-fits bits e ∙ apart
]
