-- ===== src/Bits/Mask.antt =====
-- `&` and `|` with the masks that the source builds, as arithmetic.
use Prim.Native.Nat.{bit_and-bitwise, bit_or-bitwise}
use native.Mathlib.Nat.{mod-eq_of_lt, pow-le-pow_right}
use acca.Prelude.{
  ℕ, zero, suc, ◌+◌, ◌-◌, ◌*◌, ◌/◌, ◌%◌, ◌^◌, ◌≤◌, ◌<◌, bit_and, bit_or, ◌≡◌, ap, arith, bit_xor,
}
use acca.Bits.Step.{bit_and_step, bit_or_step, bit_xor_step, differ-le}
use acca.Bits.Power.{two-pow-pos, two-pow-double, div-two-pow-suc, mod-two-pow-suc}

lt-two-pow : (a : ℕ) → a < 2 ^ a
lt-two-pow zero = omega arith
lt-two-pow (suc a) = omega (arith, two-pow-double a, lt-two-pow a)

-- Half of a number below `2 ^ (k + 1)` is below `2 ^ k`, so the width bounds the induction.
bit_and-zero_below : (k a : ℕ) → a < 2 ^ k → bit_and a 0 ≡ 0
bit_and-zero_below zero a h = ground (arith, bit_and_step a 0)
bit_and-zero_below (suc k) a h =
    omega (arith, bit_and_step a 0, bit_and-zero_below k (a / 2) (omega (arith, two-pow-double k)))

pub bit_and-zero : (a : ℕ) → bit_and a 0 ≡ 0
bit_and-zero a = bit_and-zero_below a a (lt-two-pow a)

bit_or-zero_below : (k a : ℕ) → a < 2 ^ k → bit_or a 0 ≡ a
bit_or-zero_below zero a h = ground (arith, bit_or_step a 0)
bit_or-zero_below (suc k) a h =
    omega (arith, bit_or_step a 0, bit_or-zero_below k (a / 2) (omega (arith, two-pow-double k)))

pub bit_or-zero : (a : ℕ) → bit_or a 0 ≡ a
bit_or-zero a = bit_or-zero_below a a (lt-two-pow a)

pub zero-bit_or : (b : ℕ) → bit_or 0 b ≡ b
zero-bit_or b = bit_or-bitwise 0 b

zero-bit_and : (b : ℕ) → bit_and 0 b ≡ 0
zero-bit_and b = bit_and-bitwise 0 b

-- `x & (2^k - 1)` is the remainder by `2^k`.
pub bit_and_low : (k a : ℕ) → bit_and a (2 ^ k - 1) ≡ a % 2 ^ k
bit_and_low zero a = omega (arith, bit_and-zero a)
bit_and_low (suc k) a = omega (
  arith,
  two-pow-double k,
  two-pow-pos k,
  bit_and_step a (2 ^ suc k - 1),
  mod-two-pow-suc k a,
  ap (bit_and (a / 2)) (half k),
  bit_and_low k (a / 2),
)
  where
    half : (k : ℕ) → (2 ^ suc k - 1) / 2 ≡ 2 ^ k - 1
    half k = omega (arith, two-pow-double k, two-pow-pos k)

-- All ones below `2 ^ n` keep a number below `2 ^ n`.
pub bit_and_ones : (n a : ℕ) → a < 2 ^ n → bit_and a (2 ^ n - 1) ≡ a
bit_and_ones n a h = omega (arith, bit_and_low n a, mod-eq_of_lt h)

pub two-pow-le : (k n : ℕ) → k ≤ n → 2 ^ k ≤ 2 ^ n
two-pow-le k n h = pow-le-pow_right (omega arith) h

-- A mask of ones above the low `k` bits clears those.
pub bit_and_high : (k n a : ℕ) → k ≤ n → a < 2 ^ n → bit_and a (2 ^ n - 2 ^ k) ≡ a - a % 2 ^ k
bit_and_high zero n a h lt = omega (arith, bit_and_ones n a lt)
bit_and_high (suc k) zero a h lt = absurd (omega arith)
bit_and_high (suc k) (suc n) a h lt = omega (
  arith,
  bit_and_step a (2 ^ suc n - 2 ^ suc k),
  ap (bit_and (a / 2)) half,
  bit_and_high k n (a / 2) (omega arith) (omega (arith, two-pow-double n)),
  mod-two-pow-suc k a,
  two-pow-double k,
  two-pow-double n,
)
  where
    half : (2 ^ suc n - 2 ^ suc k) / 2 ≡ 2 ^ n - 2 ^ k
    half = omega (arith, two-pow-double k, two-pow-double n, two-pow-le k n (omega arith))

-- A mask of ones but for bit `k` clears that bit.
pub bit_and_clear :
    (k n a : ℕ) → k < n → a < 2 ^ n → bit_and a (2 ^ n - 1 - 2 ^ k) + a / 2 ^ k % 2 * 2 ^ k ≡ a
bit_and_clear k zero a h lt = absurd (omega arith)
bit_and_clear zero (suc n) a h lt = omega (
  arith,
  bit_and_step a (2 ^ suc n - 1 - 1),
  ap (bit_and (a / 2)) half,
  bit_and_ones n (a / 2) (omega (arith, two-pow-double n)),
  two-pow-double n,
)
  where
    half : (2 ^ suc n - 1 - 1) / 2 ≡ 2 ^ n - 1
    half = omega (arith, two-pow-double n)
bit_and_clear (suc k) (suc n) a h lt = omega (
  arith,
  bit_and_step a (2 ^ suc n - 1 - 2 ^ suc k),
  ap (bit_and (a / 2)) half,
  bit_and_clear k n (a / 2) (omega arith) (omega (arith, two-pow-double n)),
  two-pow-double k,
  two-pow-double n,
  two-pow-pos k,
  two-pow-le (suc k) n (omega arith),
  ap (λ (t : ℕ). t % 2 * 2 ^ k) (div-two-pow-suc k a),
  ap (λ (t : ℕ). a / 2 ^ suc k % 2 * t) (two-pow-double k),
)
  where
    half : (2 ^ suc n - 1 - 2 ^ suc k) / 2 ≡ 2 ^ n - 1 - 2 ^ k
    half = omega (arith, two-pow-double k, two-pow-double n, two-pow-le (suc k) n (omega arith))

-- `x & (1 << k)` is one bit.
pub bit_and_bit : (k a : ℕ) → bit_and a (2 ^ k) ≡ a / 2 ^ k % 2 * 2 ^ k
bit_and_bit zero a = omega (arith, bit_and_step a 1, bit_and-zero (a / 2))
bit_and_bit (suc k) a = omega (
  arith,
  two-pow-double k,
  bit_and_step a (2 ^ suc k),
  ap (bit_and (a / 2)) (half k),
  bit_and_bit k (a / 2),
  ap (λ (t : ℕ). t % 2 * 2 ^ k) (div-two-pow-suc k a),
  ap (λ (t : ℕ). a / 2 ^ suc k % 2 * t) (two-pow-double k),
)
  where
    half : (k : ℕ) → 2 ^ suc k / 2 ≡ 2 ^ k
    half k = omega (arith, two-pow-double k)

-- `x | (1 << k)` sets one bit.
pub bit_or_bit : (k a : ℕ) → bit_or a (2 ^ k) ≡ a + (1 - a / 2 ^ k % 2) * 2 ^ k
bit_or_bit zero a = omega (arith, bit_or_step a 1, bit_or-zero (a / 2))
bit_or_bit (suc k) a = omega (
  arith,
  two-pow-double k,
  bit_or_step a (2 ^ suc k),
  ap (bit_or (a / 2)) (half k),
  bit_or_bit k (a / 2),
  ap (λ (t : ℕ). (1 - t % 2) * 2 ^ k) (div-two-pow-suc k a),
  ap (λ (t : ℕ). (1 - a / 2 ^ suc k % 2) * t) (two-pow-double k),
)
  where
    half : (k : ℕ) → 2 ^ suc k / 2 ≡ 2 ^ k
    half k = omega (arith, two-pow-double k)

-- `r | (q << k)` is a sum when `r` fits `k` bits.
pub bit_or_fields : (k q r : ℕ) → r < 2 ^ k → bit_or r (q * 2 ^ k) ≡ q * 2 ^ k + r
bit_or_fields zero q r h = ground (arith, zero-bit_or q)
bit_or_fields (suc k) q r h = omega (
  arith,
  two-pow-double k,
  doubled,
  bit_or_step r (q * 2 ^ suc k),
  ap (bit_or (r / 2)) half,
  bit_or_fields k q (r / 2) (omega (arith, two-pow-double k)),
)
  where
    doubled : q * 2 ^ suc k ≡ 2 * (q * 2 ^ k)
    doubled = omega (arith, ap (λ (t : ℕ). q * t) (two-pow-double k))

    half : q * 2 ^ suc k / 2 ≡ q * 2 ^ k
    half = omega (arith, doubled)

pub bit_or_fields_high : (k q r : ℕ) → r < 2 ^ k → bit_or (q * 2 ^ k) r ≡ q * 2 ^ k + r
bit_or_fields_high zero q r h = ground (arith, bit_or-zero q)
bit_or_fields_high (suc k) q r h = omega (
  arith,
  two-pow-double k,
  doubled,
  bit_or_step (q * 2 ^ suc k) r,
  ap (λ t. bit_or t (r / 2)) half,
  bit_or_fields_high k q (r / 2) (omega (arith, two-pow-double k)),
)
  where
    doubled : q * 2 ^ suc k ≡ 2 * (q * 2 ^ k)
    doubled = omega (arith, ap (λ (t : ℕ). q * t) (two-pow-double k))

    half : q * 2 ^ suc k / 2 ≡ q * 2 ^ k
    half = omega (arith, doubled)

pub bit_or-lt : (k a b : ℕ) → a < 2 ^ k → b < 2 ^ k → bit_or a b < 2 ^ k
bit_or-lt zero a b ha hb = ground (arith, bit_or_step a b, bit_or-zero 0)
bit_or-lt (suc k) a b ha hb = omega (
  arith,
  two-pow-double k,
  bit_or_step a b,
  bit_or-lt k (a / 2) (b / 2) (omega (arith, two-pow-double k)) (omega (arith, two-pow-double k)),
)

pub bit_xor-lt : (k a b : ℕ) → a < 2 ^ k → b < 2 ^ k → bit_xor a b < 2 ^ k
bit_xor-lt zero a b ha hb = rw (none a ha, none b hb) (omega arith)
  where
    none : (x : ℕ) → x < 1 → x ≡ 0
    none x h = omega arith
bit_xor-lt (suc k) a b ha hb = omega (
  arith,
  two-pow-double k,
  bit_xor_step a b,
  differ-le a b,
  bit_xor-lt k (a / 2) (b / 2) (omega (arith, two-pow-double k)) (omega (arith, two-pow-double k)),
)

bit_and-le_below : (k a b : ℕ) → a < 2 ^ k → bit_and a b ≤ a
bit_and-le_below zero a b h = ground (arith, zero-bit_and b)
bit_and-le_below (suc k) a b h =
    omega (
      arith,
      bit_and_step a b,
      bit_and-le_below k (a / 2) (b / 2) (omega (arith, two-pow-double k)),
    )

pub bit_and-le : (a b : ℕ) → bit_and a b ≤ a
bit_and-le a b = bit_and-le_below a a b (lt-two-pow a)
