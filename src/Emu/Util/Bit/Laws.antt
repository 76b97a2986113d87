-- ===== src/Emu/Util/Bit/Laws.antt =====
-- Reading a bit after writing one, and what the extension of immediates computes.
use native.Mathlib.Nat.{mod-eq_of_lt}
use acca.Prelude.{
  ℕ, suc, ◌/◌, ◌%◌, ◌^◌, ◌≤◌, ◌<◌, bit_and, bit_or, ◌≡◌, arith, Bool, true, false, ◌==◌,
  if◌then◌else◌,
}
use acca.Word.{bit_not, shl}
use acca.Bits.Power.{two-pow-pos, two-pow-double}
use acca.Bits.Mask.{two-pow-le, bit_and_bit, bit_or-lt, bit_and-le}
use acca.Bits.Digit.{digit, digit-bit_or, digit-bit_and, digit-two-pow, digit-complement}
use acca.Emu.Util.Bit.{bit_as_bool, set_bit_with_bool}

pub two-pow-lt : (k n : ℕ) → k < n → 2 ^ k < 2 ^ n
two-pow-lt k n h = omega (arith, two-pow-le (suc k) n h, two-pow-double k, two-pow-pos k)

-- `1u64 << k`
pub one-shl : (k : ℕ) → k < 64 → shl 1 k ≡ 2 ^ k
one-shl k h = omega (arith, two-pow-lt k 64 h, mod-eq_of_lt (two-pow-lt k 64 h))

pub bit_as_bool_lem : (x i : ℕ) → i < 64 → bit_as_bool x i ≡ (digit x i == 1)
unfolding bit_as_bool
bit_as_bool_lem x i h =
    rw (one-shl i h, bit_and_bit) (ground (arith, two-pow-pos i, zero_or_one (x / 2 ^ i)))
  where
    zero_or_one : (t : ℕ) → (t % 2 < 2)
    zero_or_one t = omega arith

digit-set : (x i j : ℕ) → i < 64 → digit (bit_or x (shl 1 i)) j ≡ (if j == i then 1 else digit x j)
digit-set x i j h =
    rw (one-shl i h, digit-bit_or) (ground (arith, digit-two-pow i j, small (x / 2 ^ j)))
  where
    small : (t : ℕ) → t % 2 < 2
    small t = omega arith

digit-clear :
    (x i j : ℕ)
    → i < 64
    → j < 64
    → digit (bit_and x (bit_not (shl 1 i))) j ≡ (if j == i then 0 else digit x j)
digit-clear x i j h h' =
    rw (one-shl i h, digit-bit_and)
      (ground (
        arith,
        digit-complement 64 j (2 ^ i) h' (two-pow-lt i 64 h),
        digit-two-pow i j,
        small (x / 2 ^ j),
      ))
  where
    small : (t : ℕ) → t % 2 < 2
    small t = omega arith

-- Writing one of the 64 bits of a word gives that bit the value and leaves the others alone.
pub bit_as_bool-set_bit_with_bool :
    (x i j : ℕ) (value : Bool)
    → i < 64
    → j < 64
    → bit_as_bool (set_bit_with_bool x i value) j ≡ (if j == i then value else bit_as_bool x j)
unfolding set_bit_with_bool
bit_as_bool-set_bit_with_bool x i j true h h' =
    ground
      (arith, bit_as_bool_lem (bit_or x (shl 1 i)) j h', bit_as_bool_lem x j h', digit-set x i j h)
bit_as_bool-set_bit_with_bool x i j false h h' = ground (
  arith,
  bit_as_bool_lem (bit_and x (bit_not (shl 1 i))) j h',
  bit_as_bool_lem x j h',
  digit-clear x i j h h',
)

-- A number of `w` bits keeps its width when one of those is written.
pub set_bit_with_bool-lt :
    (w x i : ℕ) (value : Bool) → i < w → w ≤ 64 → x < 2 ^ w → set_bit_with_bool x i value < 2 ^ w
unfolding set_bit_with_bool
set_bit_with_bool-lt w x i true h h' below =
    rw (one-shl i (omega arith)) (bit_or-lt w x (2 ^ i) below (two-pow-lt i w h))
set_bit_with_bool-lt w x i false h h' below = omega (arith, bit_and-le x (bit_not (shl 1 i)))
