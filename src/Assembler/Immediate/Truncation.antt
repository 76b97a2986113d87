-- ===== src/Assembler/Immediate/Truncation.antt =====
-- `truncate_immediate` of the assembler, and the extensions of immediates of the emulator.
use native.Mathlib.Nat.{mod-lt}
use acca.Prelude.{
  ℕ, suc, ◌+◌, ◌-◌, ◌/◌, ◌%◌, ◌^◌, ◌<◌, ◌≤◌, bit_and, ◌≡◌, refl, ap, ◌∙◌, sym, true, false, not,
  inl, inr, ltb, lt→ltb, Bool-cases, if◌then◌else◌, arith,
}
use acca.Word.{all_bits, shr, bit_not, checked_shl, unwrap_or}
use acca.Bits.Power.{two-pow-pos, two-pow-double}
use acca.Bits.Mask.{two-pow-le, bit_and_low}
use acca.Bits.Width.{mask_of_width, top_bit, fill}
use acca.Emu.Util.Bit.{zero_extend_immediate, sign_extend_immediate}
use acca.Emu.Util.Bit.Laws.{one-shl}
use acca.Emu.Util.Register.Sized.{sign_extended}
use acca.Assembler.Immediate.{truncate_immediate}

less_one : (k : ℕ) → suc k - 1 ≡ k
less_one k = omega arith

low_bits : (x w : ℕ) → w ≤ 64 → bit_and x (shr all_bits (64 - w)) ≡ x % 2 ^ w
low_bits x w h = rw (mask_of_width w h) (bit_and_low w x)

-- The ones above the mask.
above_mask : (w : ℕ) → w ≤ 64 → bit_not (shr all_bits (64 - w)) ≡ 2 ^ 64 - 2 ^ w
above_mask w h = rw (mask_of_width w h) (omega (arith, two-pow-pos w))

-- `ALL_BITS.checked_shl(w).unwrap_or(0)`
shifted_ones : (w : ℕ) → w ≤ 64 → unwrap_or (checked_shl all_bits w) 0 ≡ 2 ^ 64 - 2 ^ w
shifted_ones w h = elim (Bool-cases (ltb w 64)) [
  | inl small ↦ rw small (omega (arith, two-pow-pos w, two-pow-le w 64 h))
  | inr whole ↦ rw whole (omega (arith, ap (λ (t : ℕ). 2 ^ t) (sixty_four w h whole)))
]
  where
    sixty_four : (w : ℕ) → w ≤ 64 → ltb w 64 ≡ false → w ≡ 64
    sixty_four w h whole = ground arith

zero_extend_immediate_lem : (x k : ℕ) → suc k ≤ 64 → zero_extend_immediate x (suc k) ≡ x % 2 ^ suc k
unfolding zero_extend_immediate
zero_extend_immediate_lem x k h = rw (small) (low_bits x (suc k) h)
  where
    small : ltb (64 - suc k) 64 ≡ true
    small = lt→ltb (64 - suc k) 64 (omega arith)

filled :
    (x k : ℕ)
    → suc k ≤ 64
    → sign_extended (suc k) x ≡ (
        if not (ltb (x % 2 ^ suc k) (2 ^ k))
        then x % 2 ^ suc k + (2 ^ 64 - 2 ^ suc k)
        else x % 2 ^ suc k)
filled x k h = rw (half k) (elim (Bool-cases (ltb (x % 2 ^ suc k) (2 ^ k))) [
  | inl low ↦ rw low refl
  | inr high ↦ rw high refl
])
  where
    half : (k : ℕ) → 2 ^ suc k / 2 ≡ 2 ^ k
    half k = omega (arith, two-pow-double k)

below : (x w : ℕ) → x % 2 ^ w < 2 ^ w
below x w = mod-lt x (two-pow-pos w)

-- The emulator's sign extension from a width of 1 to 64 bits.
pub sign_extend_immediate_lem :
    (x k : ℕ) → suc k ≤ 64 → sign_extend_immediate x (suc k) ≡ sign_extended (suc k) x
unfolding sign_extend_immediate
sign_extend_immediate_lem x k h =
    rw
      (
        zero_extend_immediate_lem x k h,
        less_one k,
        one-shl k h,
        top_bit k (x % 2 ^ suc k) (below x (suc k)),
        shifted_ones (suc k) h,
        (fill (suc k) (x % 2 ^ suc k) h (below x (suc k))).0,
      )
      (sym (filled x k h))

pub truncate-signed :
    (x k : ℕ) → suc k ≤ 64 → truncate_immediate x (suc k) true ≡ sign_extended (suc k) x
unfolding truncate_immediate
truncate-signed x k h =
    rw
      (
        low_bits x (suc k) h,
        less_one k,
        one-shl k h,
        top_bit k (x % 2 ^ suc k) (below x (suc k)),
        above_mask (suc k) h,
        (fill (suc k) (x % 2 ^ suc k) h (below x (suc k))).1,
      )
      (sym (filled x k h))

truncate-unsigned : (x k : ℕ) → suc k ≤ 64 → truncate_immediate x (suc k) false ≡ x % 2 ^ suc k
unfolding truncate_immediate
truncate-unsigned x k h = low_bits x (suc k) h

-- At every width from 1 to 64 bits, the assembler's truncation of an immediate is the emulator's
-- extension of it, with the sign and without.
pub truncate_immediate_lem :
    (x k : ℕ)
    → suc k ≤ 64
    → (truncate_immediate x (suc k) true ≡ sign_extend_immediate x (suc k))
      × (truncate_immediate x (suc k) false ≡ zero_extend_immediate x (suc k))
truncate_immediate_lem x k h = (
  truncate-signed x k h ∙ sym (sign_extend_immediate_lem x k h),
  truncate-unsigned x k h ∙ sym (zero_extend_immediate_lem x k h),
)
