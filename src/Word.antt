-- ===== src/Word.antt =====
-- The `u64` operations of the language that acca-emu uses. An `i64` is kept as the bit pattern
-- that `as u64` gives.
use acca.Prelude.{
  ℕ, zero, suc, ◌+◌, ◌-◌, ◌*◌, ◌/◌, ◌%◌, ◌^◌, ◌<◌, Bool, not, Option, none, some, List, [], ◌∷◌,
  ltb, if◌then◌else◌,
}

abbrev pub IsWord : ℕ → Type 0
IsWord x = x < 2 ^ 64

abbrev pub all_bits : ℕ
all_bits = 2 ^ 64 - 1

abbrev pub wrapping_add : ℕ → ℕ → ℕ
wrapping_add a b = (a + b) % 2 ^ 64

abbrev pub wrapping_sub : ℕ → ℕ → ℕ
wrapping_sub a b = (a + 2 ^ 64 - b) % 2 ^ 64

abbrev pub wrapping_mul : ℕ → ℕ → ℕ
wrapping_mul a b = a * b % 2 ^ 64

-- `!x`
abbrev pub bit_not : ℕ → ℕ
bit_not x = 2 ^ 64 - 1 - x

-- `x << k` and `x >> k`, for `k < 64`.
abbrev pub shl : ℕ → ℕ → ℕ
shl x k = x * 2 ^ k % 2 ^ 64

abbrev pub shr : ℕ → ℕ → ℕ
shr x k = x / 2 ^ k

abbrev pub checked_shl : ℕ → ℕ → Option ℕ
checked_shl x k = if ltb k 64 then some (shl x k) else none

abbrev pub checked_shr : ℕ → ℕ → Option ℕ
checked_shr x k = if ltb k 64 then some (shr x k) else none

abbrev pub unwrap_or : Option ℕ → ℕ → ℕ
unwrap_or none d = d
unwrap_or (some x) d = x

-- The sign and the magnitude of an `i64`.
abbrev pub is_negative : ℕ → Bool
is_negative x = not (ltb x (2 ^ 63))

abbrev pub magnitude : ℕ → ℕ
magnitude x = if ltb x (2 ^ 63) then x else 2 ^ 64 - x

-- `-x`, wrapping.
abbrev pub negate : ℕ → ℕ
negate x = (2 ^ 64 - x) % 2 ^ 64

abbrev pub with_sign : Bool → ℕ → ℕ
with_sign minus m = if minus then negate m else m

-- The true product of two `i64` does not fit an `i64`.
abbrev pub i64_mul_overflows : ℕ → ℕ → Bool
i64_mul_overflows a b =
    let m = magnitude a * magnitude b in
    let minus = if is_negative a then not (is_negative b) else is_negative b in
    if minus then ltb (2 ^ 63) m else not (ltb m (2 ^ 63))

-- `>>` on an `i64`, which copies the sign bit in.
abbrev pub arithmetic_shr : ℕ → ℕ → ℕ
arithmetic_shr x k = if ltb x (2 ^ 63) then shr x k else bit_not (shr (bit_not x) k)

-- `rotate_right` on a word of `w` bits.
abbrev pub rotate_right : ℕ → ℕ → ℕ → ℕ
rotate_right w x k = x / 2 ^ k + x % 2 ^ k * 2 ^ (w - k)

-- `to_le_bytes` on an integer of `n` bytes, and `from_le_bytes`.
abbrev pub to_le_bytes : ℕ → ℕ → List ℕ
to_le_bytes zero x = []
to_le_bytes (suc n) x = (x % 256) ∷ to_le_bytes n (x / 256)

abbrev pub from_le_bytes : List ℕ → ℕ
from_le_bytes [] = 0
from_le_bytes (b ∷ bs) = b + 256 * from_le_bytes bs
