-- ===== src/Encoding/Refinement.antt =====
-- An encoding that fixes more bits than another: its words have the other's fixed bits.
use acca.Prelude.{
  ℕ, ◌%◌, ◌^◌, ◌≡◌, refl, Bool, true, false, List, [], ◌∷◌, ◌<◌, length, ap, suc, arith,
}
use acca.Encoding.Scan.{InstructionBit, zero_bit, one_bit, variable, matches, encode}
use acca.Bits.Power.{two-pow-double}
use acca.Encoding.Digits.{fits, build, halve, matches-eq-fits}
use acca.Encoding.Gather.{encode-eq-build}
use acca.Encoding.RoundTrip.{even_half, even_digit, odd_half, odd_digit, digit_half, digit_digit}

-- Where the second encoding has a fixed bit, the first has it too.
abbrev pub refines : List InstructionBit → List InstructionBit → Bool
refines [] [] = true
refines (zero_bit ∷ bits) (zero_bit ∷ others) = refines bits others
refines (one_bit ∷ bits) (one_bit ∷ others) = refines bits others
refines (bit ∷ bits) (variable char ∷ others) = refines bits others
refines _ _ = false

ruleset refinement_laws = (even_half, even_digit, odd_half, odd_digit, digit_half, digit_digit)

fits-build :
    (bits others : List InstructionBit) (values : ℕ → ℕ)
    → refines bits others ≡ true
    → fits others (build bits values) ≡ true
fits-build [] [] values h = refl
fits-build [] (other ∷ others) values h = cc
fits-build (zero_bit ∷ bits) (zero_bit ∷ others) values h =
    simp refinement_laws (fits-build bits others values h)
fits-build (one_bit ∷ bits) (one_bit ∷ others) values h =
    simp refinement_laws (fits-build bits others values h)
fits-build (zero_bit ∷ bits) (variable char ∷ others) values h =
    simp refinement_laws (fits-build bits others values h)
fits-build (one_bit ∷ bits) (variable char ∷ others) values h =
    simp refinement_laws (fits-build bits others values h)
fits-build (variable name ∷ bits) (variable char ∷ others) values h =
    simp refinement_laws (fits-build bits others (halve values name) h)
fits-build (zero_bit ∷ bits) [] values h = refl
fits-build (one_bit ∷ bits) [] values h = refl
fits-build (variable char ∷ bits) [] values h = refl
fits-build (zero_bit ∷ bits) (one_bit ∷ others) values h = cc
fits-build (one_bit ∷ bits) (zero_bit ∷ others) values h = cc
fits-build (variable char ∷ bits) (zero_bit ∷ others) values h = cc
fits-build (variable char ∷ bits) (one_bit ∷ others) values h = cc

-- A word of the first encoding passes the guard of the second.
pub matches-refines :
    (bits others : List InstructionBit) (values : ℕ → ℕ)
    → refines bits others ≡ true
    → matches others (encode bits values) ≡ true
matches-refines bits others values h =
    rw (matches-eq-fits, encode-eq-build) (fits-build bits others (λ name. values name % 2 ^ 32) h)

build-lt : (bits : List InstructionBit) (values : ℕ → ℕ) → build bits values < 2 ^ length bits
build-lt [] values = omega arith
build-lt (zero_bit ∷ bits) values =
    omega (arith, two-pow-double (length bits), build-lt bits values)
build-lt (one_bit ∷ bits) values = omega (arith, two-pow-double (length bits), build-lt bits values)
build-lt (variable char ∷ bits) values =
    omega (arith, two-pow-double (length bits), build-lt bits (halve values char))

-- An encoded word has no more bits than the encoding.
pub encode-lt : (bits : List InstructionBit) (values : ℕ → ℕ) → encode bits values < 2 ^ length bits
encode-lt bits values = rw encode-eq-build (build-lt bits (λ name. values name % 2 ^ 32))

pub refines-length :
    (bits others : List InstructionBit) → refines bits others ≡ true → length bits ≡ length others
refines-length [] [] h = refl
refines-length [] (other ∷ others) h = cc
refines-length (zero_bit ∷ bits) (zero_bit ∷ others) h = ap suc (refines-length bits others h)
refines-length (one_bit ∷ bits) (one_bit ∷ others) h = ap suc (refines-length bits others h)
refines-length (zero_bit ∷ bits) (variable char ∷ others) h = ap suc (refines-length bits others h)
refines-length (one_bit ∷ bits) (variable char ∷ others) h = ap suc (refines-length bits others h)
refines-length (variable name ∷ bits) (variable char ∷ others) h =
    ap suc (refines-length bits others h)
refines-length (zero_bit ∷ bits) [] h = cc
refines-length (one_bit ∷ bits) [] h = cc
refines-length (variable char ∷ bits) [] h = cc
refines-length (zero_bit ∷ bits) (one_bit ∷ others) h = cc
refines-length (one_bit ∷ bits) (zero_bit ∷ others) h = cc
refines-length (variable char ∷ bits) (zero_bit ∷ others) h = cc
refines-length (variable char ∷ bits) (one_bit ∷ others) h = cc
