-- ===== src/Assembler/Layout/Alignment.antt =====
-- Sums and alignments of addresses.
use acca.Prelude.{ℕ, ◌+◌, ◌*◌, ◌/◌, ◌^◌, ◌<◌, bit_and, ◌≡◌, ap, arith, Bool-cases, inl, inr}
use acca.Word.{bit_not}
use acca.Bits.Mask.{bit_and_high}
use acca.Assembler.Outcome.{Host, ok, ok->>=, ok-injective, checked_sum}
use acca.Assembler.Layout.Items.{align}

checked_sum_fits : ⦃host : Host⦄ (a b : ℕ) → a + b < 2 ^ 64 → checked_sum a b ≡ ok (a + b)
unfolding checked_sum
checked_sum_fits ⦃host⦄ a b h = elim (Bool-cases host.overflow_checks) [
  | inl checks ↦ ground arith
  | inr free ↦ ground arith
]

checked_sum-lt : ⦃host : Host⦄ (a b : ℕ) {c : ℕ} → checked_sum a b ≡ ok c → c < 2 ^ 64
unfolding checked_sum
checked_sum-lt ⦃host⦄ a b h = elim (Bool-cases host.overflow_checks) [
  | inl checks ↦ ground arith
  | inr free ↦ ground arith
]

align_multiple : ⦃host : Host⦄ (m : ℕ) → m * 4 < 2 ^ 64 → align (m * 4) ≡ ok (m * 4)
unfolding align
align_multiple m h =
    rw (checked_sum_fits (m * 4) 3 (omega arith))
      (ap ok (omega (arith, bit_and_high 2 64 (m * 4 + 3))))

multiple_of_mask :
    (raised : ℕ) {a : ℕ} → raised < 2 ^ 64 → bit_and raised (bit_not 3) ≡ a → a ≡ raised / 4 * 4
multiple_of_mask raised below h = omega (arith, h, bit_and_high 2 64 raised (omega arith) below)

-- An aligned address is a multiple of 4.
align-multiple :
    ⦃host : Host⦄ (addr : ℕ) {a : ℕ} → align addr ≡ ok a → (m : ℕ) × (a ≡ m * 4) × (a < 2 ^ 64)
unfolding align
align-multiple addr h =
    let (raised, sum, result) = ok->>= (checked_sum addr 3) h in
    let below = checked_sum-lt addr 3 sum in
    let same = multiple_of_mask raised below (ok-injective result) in
    (raised / 4, same, omega (arith, same, below))

pub align_twice : ⦃host : Host⦄ (addr : ℕ) {a : ℕ} → align addr ≡ ok a → align a ≡ ok a
align_twice addr h =
    let (m, same, below) = align-multiple addr h in rw same (align_multiple m (omega arith))
