-- ===== src/Bits/Step.antt =====
-- The native bit operations, one binary digit at a time. The library defines them by a recursion
-- on a count of digits; that count is dropped here.
use Prim.Native.Nat.{digits, bit_and-bitwise, bit_or-bitwise, bit_xor-bitwise, differ}
use acca.Prelude.{
  refl, ◌≡◌, arith, ℕ, suc, zero, bit_or, bit_and, bit_xor, max, min, Bool-cases, inl, inr, leb,
  ◌∙◌, ap, ◌≤◌, ◌%◌, ◌/◌, ◌*◌, ◌+◌,
}

module _ (rest : ℕ → ℕ) (digit : ℕ → ℕ → ℕ) where
  -- A count that covers the number may be one less.
  one_more :
      (n count y : ℕ) → n ≤ count → digits rest digit (suc count) n y ≡ digits rest digit count n y
  one_more zero zero y below = refl
  one_more zero (suc count) y below = refl
  one_more (suc n) zero y below = absurd (omega arith)
  one_more (suc n) (suc count) y below =
      omega (arith, one_more (suc n / 2) count (y / 2) (omega arith))

  -- And so it may be the number itself.
  shrink : (count n y : ℕ) → n ≤ count → digits rest digit count n y ≡ digits rest digit n n y
  shrink zero zero y below = refl
  shrink zero (suc n) y below = absurd (omega arith)
  shrink (suc count) n y below = elim (Bool-cases (leb n count)) [
    | inl covered ↦
        let smaller : n ≤ count = ground (arith, covered) in
        one_more n count y smaller ∙ shrink count n y smaller
    | inr exact ↦
        let same : suc count ≡ n = ground (arith, exact, below) in
        ap (λ k. digits rest digit k n y) same
  ]

  least_digit :
      (n y : ℕ)
      → digits rest digit (suc n) (suc n) y
        ≡ digit (suc n % 2) (y % 2) + 2 * digits rest digit (suc n / 2) (suc n / 2) (y / 2)
  least_digit n y = omega (arith, shrink n (suc n / 2) (y / 2) (omega arith))

pub bit_and_step : (x y : ℕ) → bit_and x y ≡ min (x % 2) (y % 2) + 2 * bit_and (x / 2) (y / 2)
bit_and_step zero y = simp bit_and-bitwise (omega arith)
bit_and_step (suc n) y = simp bit_and-bitwise (least_digit (λ _. 0) min n y)

pub bit_or_step : (x y : ℕ) → bit_or x y ≡ max (x % 2) (y % 2) + 2 * bit_or (x / 2) (y / 2)
bit_or_step zero y = simp bit_or-bitwise (omega arith)
bit_or_step (suc n) y = simp bit_or-bitwise (least_digit (λ rest. rest) max n y)

pub bit_xor_step : (x y : ℕ) → bit_xor x y ≡ differ (x % 2) (y % 2) + 2 * bit_xor (x / 2) (y / 2)
bit_xor_step zero y = simp bit_xor-bitwise (omega arith)
bit_xor_step (suc n) y = simp bit_xor-bitwise (least_digit (λ rest. rest) differ n y)

differ_small : (x y : ℕ) → x ≤ 1 → y ≤ 1 → differ x y ≤ 1
differ_small zero y hx hy = hy
differ_small (suc x) zero hx hy = hx
differ_small (suc x) (suc y) hx hy = differ_small x y (omega arith) (omega arith)

pub differ-le : (x y : ℕ) → differ (x % 2) (y % 2) ≤ 1
differ-le x y = differ_small (x % 2) (y % 2) (omega arith) (omega arith)
