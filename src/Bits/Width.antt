-- ===== src/Bits/Width.antt =====
-- The low bits of a 64-bit word: the mask of a width, its top bit and the fill above it.
use native.Mathlib.Nat.{mul_assoc, add-mul, div-eq_of_lt-le, div-eq_of_lt}
use acca.Prelude.{
  ℕ, zero, suc, ◌+◌, ◌-◌, ◌*◌, ◌/◌, ◌^◌, ◌<◌, ◌≤◌, bit_and, bit_or, ◌≡◌, ap, not, ◌⊎◌, inl, inr,
  ltb, ltb→lt, Bool-cases, ◌==◌, arith,
}
use acca.Word.{all_bits, shr}
use acca.Bits.Power.{two-pow-pos, two-pow-double, div-two-pow-suc}
use acca.Bits.Mask.{bit_and_bit, bit_or_fields, bit_or_fields_high}

from_zero : (w : ℕ) → zero + w ≡ w
from_zero w = omega arith

from_suc : (j w : ℕ) → suc j + w ≡ suc (j + w)
from_suc j w = omega arith

pub two-pow-add : (j w : ℕ) → 2 ^ (j + w) ≡ 2 ^ j * 2 ^ w
two-pow-add zero w = omega (arith, ap (λ (t : ℕ). 2 ^ t) (from_zero w))
two-pow-add (suc j) w = omega (
  arith,
  ap (λ (t : ℕ). 2 ^ t) (from_suc j w),
  two-pow-double (j + w),
  two-pow-add j w,
  ap (λ (t : ℕ). t * 2 ^ w) (two-pow-double j),
  mul_assoc 2 (2 ^ j) (2 ^ w),
)

ones-div : (j w : ℕ) → (2 ^ (j + w) - 1) / 2 ^ j ≡ 2 ^ w - 1
ones-div zero w = omega (arith, ap (λ (t : ℕ). (2 ^ t - 1) / 1) (from_zero w))
ones-div (suc j) w = omega (
  arith,
  div-two-pow-suc j (2 ^ (suc j + w) - 1),
  ap (λ (t : ℕ). (2 ^ t - 1) / 2 / 2 ^ j) (from_suc j w),
  ap (λ (t : ℕ). (t - 1) / 2 / 2 ^ j) (two-pow-double (j + w)),
  ap (λ (t : ℕ). t / 2 ^ j) (half (2 ^ (j + w)) (two-pow-pos (j + w))),
  ones-div j w,
)
  where
    half : (t : ℕ) → 0 < t → (2 * t - 1) / 2 ≡ t - 1
    half t h = omega arith

-- `ALL_BITS >> (64 - w)`
pub mask_of_width : (w : ℕ) → w ≤ 64 → shr all_bits (64 - w) ≡ 2 ^ w - 1
mask_of_width w h =
    omega (arith, ones-div (64 - w) w, ap (λ (t : ℕ). (2 ^ t - 1) / 2 ^ (64 - w)) (whole w h))
  where
    whole : (w : ℕ) → w ≤ 64 → 64 - w + w ≡ 64
    whole w h = omega arith

-- The test of the top bit of a number of `k + 1` bits.
pub top_bit : (k x : ℕ) → x < 2 ^ suc k → not (bit_and x (2 ^ k) == 0) ≡ not (ltb x (2 ^ k))
top_bit k x h = rw (bit_and_bit k x) (elim (compare_cases x (2 ^ k)) [
  | inl low ↦ ground (arith, div-eq_of_lt low, two-pow-pos k)
  | inr high ↦ ground (
    arith,
    div-eq_of_lt-le {k = 1} (2 ^ k) {m = x} (omega (arith, high))
        (omega (arith, h, two-pow-double k)),
    high,
    two-pow-pos k,
  )
])
  where
    compare_cases : (x p : ℕ) → (x < p) ⊎ (p ≤ x)
    compare_cases x p = elim (Bool-cases (ltb x p)) [
      | inl below ↦ inl (ltb→lt x p below)
      | inr above ↦ inr (ground (arith, above))
    ]

-- Ones above the low `w` bits.
pub fill :
    (w x : ℕ)
    → w ≤ 64
    → x < 2 ^ w
    → (bit_or x (2 ^ 64 - 2 ^ w) ≡ x + (2 ^ 64 - 2 ^ w))
      × (bit_or (2 ^ 64 - 2 ^ w) x ≡ x + (2 ^ 64 - 2 ^ w))
fill w x h below =
    let q = 2 ^ (64 - w) - 1 in
    rw (multiple)
      (omega (arith, bit_or_fields w q x below), omega (arith, bit_or_fields_high w q x below))
  where
    whole : 64 - w + w ≡ 64
    whole = omega arith

    back : 2 ^ (64 - w) - 1 + 1 ≡ 2 ^ (64 - w)
    back = omega (arith, two-pow-pos (64 - w))

    multiple : 2 ^ 64 - 2 ^ w ≡ (2 ^ (64 - w) - 1) * 2 ^ w
    multiple = omega (
      arith,
      ap (λ (t : ℕ). 2 ^ t) whole,
      two-pow-add (64 - w) w,
      add-mul (2 ^ (64 - w) - 1) 1 (2 ^ w),
      ap (λ (t : ℕ). t * 2 ^ w) back,
    )
