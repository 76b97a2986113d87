-- ===== src/Bits/Digit.antt =====
-- One binary digit of a number, and of the results of the bit operations.
use acca.Prelude.{
  ℕ, zero, suc, ◌-◌, ◌/◌, ◌%◌, ◌^◌, ◌<◌, min, max, bit_and, bit_or, ◌≡◌, refl, ap, ◌∙◌, arith, ◌==◌,
  if◌then◌else◌,
}
use acca.Bits.Step.{bit_and_step, bit_or_step}
use acca.Bits.Power.{two-pow-double, div-two-pow-suc}

abbrev pub digit : ℕ → ℕ → ℕ
digit x i = x / 2 ^ i % 2

pub digit-zero : (x : ℕ) → digit x 0 ≡ x % 2
digit-zero x = omega arith

pub digit-suc : (x i : ℕ) → digit x (suc i) ≡ digit (x / 2) i
digit-suc x i = ap (λ (t : ℕ). t % 2) (div-two-pow-suc i x)

bit_or-half : (a b : ℕ) → bit_or a b / 2 ≡ bit_or (a / 2) (b / 2)
bit_or-half a b = omega (arith, bit_or_step a b)

bit_and-half : (a b : ℕ) → bit_and a b / 2 ≡ bit_and (a / 2) (b / 2)
bit_and-half a b = omega (arith, bit_and_step a b)

pub digit-bit_or : (i a b : ℕ) → digit (bit_or a b) i ≡ max (digit a i) (digit b i)
digit-bit_or zero a b = omega (arith, bit_or_step a b)
digit-bit_or (suc i) a b =
    rw (digit-suc, digit-suc a i, digit-suc b i, bit_or-half) (digit-bit_or i (a / 2) (b / 2))

pub digit-bit_and : (i a b : ℕ) → digit (bit_and a b) i ≡ min (digit a i) (digit b i)
digit-bit_and zero a b = omega (arith, bit_and_step a b)
digit-bit_and (suc i) a b =
    rw (digit-suc, digit-suc a i, digit-suc b i, bit_and-half) (digit-bit_and i (a / 2) (b / 2))

digit-nothing : (i : ℕ) → digit 0 i ≡ 0
digit-nothing zero = refl
digit-nothing (suc i) = digit-suc 0 i ∙ digit-nothing i

-- `1 << k` has one digit.
pub digit-two-pow : (k i : ℕ) → digit (2 ^ k) i ≡ (if i == k then 1 else 0)
digit-two-pow zero zero = refl
digit-two-pow zero (suc i) = ground (arith, digit-suc 1 i, digit-nothing i)
digit-two-pow (suc k) zero = ground (arith, two-pow-double k)
digit-two-pow (suc k) (suc i) =
    ground (arith, digit-suc (2 ^ suc k) i, ap (λ t. digit t i) (half k), digit-two-pow k i)
  where
    half : (k : ℕ) → 2 ^ suc k / 2 ≡ 2 ^ k
    half k = omega (arith, two-pow-double k)

-- The digits of the complement in `n` bits.
pub digit-complement : (n i x : ℕ) → i < n → x < 2 ^ n → digit (2 ^ n - 1 - x) i ≡ 1 - digit x i
digit-complement zero i x h below = absurd (omega arith)
digit-complement (suc n) zero x h below = omega (arith, two-pow-double n)
digit-complement (suc n) (suc i) x h below =
    rw (digit-suc, digit-suc x i, half)
      (digit-complement n i (x / 2) (omega arith) (omega (arith, two-pow-double n)))
  where
    half : (2 ^ suc n - 1 - x) / 2 ≡ 2 ^ n - 1 - x / 2
    half = omega (arith, two-pow-double n)
