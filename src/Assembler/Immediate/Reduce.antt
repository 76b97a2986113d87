-- ===== src/Assembler/Immediate/Reduce.antt =====
-- The wrapping operators of `evaluate_immediate`, on integers modulo 2^64.
use native.Mathlib.Nat.{div-eq_of_lt, div-le_self, mod-add-div, add-mul-mod_self_left}
use acca.Prelude.{
  ℕ, ◌+◌, ◌-◌, ◌*◌, ◌/◌, ◌%◌, ◌^◌, ◌≡◌, refl, sym, ap, ◌∙◌, arith, false, ltb, inl, inr, Bool-cases,
}
use acca.Word.{IsWord, wrapping_mul, shl, checked_shl, checked_shr, unwrap_or}
use acca.Bits.Power.{two-pow-pos}
use acca.Bits.Width.{two-pow-add}
use acca.Assembler.Syntax.{PrefixRule}
use acca.Assembler.Immediate.{map_prefix, shift_arithmetic}
use acca.Assembler.Immediate.Integer.{Difference, reduce, prefix_difference, signed_quotient}

abbrev Same : ℕ → ℕ → Type 0
Same a b = a % 2 ^ 64 ≡ b % 2 ^ 64

mul-mod : (a c : ℕ) → Same (a * c) (a % 2 ^ 64 * c)
mul-mod a c =
    let k = a / 2 ^ 64 in
    ap (λ x. x * c % 2 ^ 64) (sym (mod-add-div a (2 ^ 64)))
    ∙ (ap (λ x. x % 2 ^ 64) (distributes (a % 2 ^ 64) k c)
        ∙ add-mul-mod_self_left (a % 2 ^ 64 * c) (2 ^ 64) (k * c))
  where
    distributes : (r k c : ℕ) → (r + 2 ^ 64 * k) * c ≡ r * c + 2 ^ 64 * (k * c)
    distributes r k c = omega arith

mul-Same : (a b c : ℕ) → Same a b → Same (a * c) (b * c)
mul-Same a b c same = mul-mod a c ∙ (ap (λ x. x * c % 2 ^ 64) same ∙ sym (mul-mod b c))

pub reduce-IsWord : (d : Difference) → IsWord (reduce d)
reduce-IsWord (more, less) = omega arith

reduce-Same : (more less : ℕ) → Same (reduce (more, less) + less) more
reduce-Same more less = omega arith

pub reduce_unique : (v more less : ℕ) → IsWord v → Same (v + less) more → v ≡ reduce (more, less)
reduce_unique v more less h same = omega (arith, h, same)

pub map_prefix-reduce :
    (op : PrefixRule) (d : Difference) → map_prefix op (reduce d) ≡ reduce (prefix_difference op d)
unfolding map_prefix
map_prefix-reduce PrefixRule.neg (more, less) = omega arith
map_prefix-reduce PrefixRule.not (more, less) = omega arith

products :
    (a b more less more' less' : ℕ)
    → Same (a + less) more
    → Same (b + less') more'
    → Same (a * b % 2 ^ 64 + (more * less' + less * more')) (more * more' + less * less')
products a b more less more' less' first second = omega (
  arith,
  mul-Same (a + less) more less' first,
  mul-Same (a + less) more more' first,
  mul-Same (b + less') more' a second,
)

pub product :
    (more less more' less' : ℕ)
    → wrapping_mul (reduce (more, less)) (reduce (more', less'))
      ≡ reduce (more * more' + less * less', more * less' + less * more')
product more less more' less' =
    reduce_unique (reduce (more, less) * reduce (more', less') % 2 ^ 64)
      (more * more' + less * less') (more * less' + less * more') (omega arith)
      (products (reduce (more, less)) (reduce (more', less')) more less more' less'
        (reduce-Same more less) (reduce-Same more' less'))

split_power : (k : ℕ) → ltb k 64 ≡ false → 2 ^ k ≡ 2 ^ 64 * 2 ^ (k - 64)
split_power k h = ap (λ n. 2 ^ n) (above k h) ∙ two-pow-add 64 (k - 64)
  where
    above : (k : ℕ) → ltb k 64 ≡ false → k ≡ 64 + (k - 64)
    above k h = ground (arith, h)

-- A shift to the left by 64 or more leaves nothing.
large_power : (k x : ℕ) → ltb k 64 ≡ false → x * 2 ^ k % 2 ^ 64 ≡ 0
large_power k x h = ap (λ n. x * n % 2 ^ 64) (split_power k h) ∙ multiple x (2 ^ (k - 64))
  where
    multiple : (x n : ℕ) → x * (2 ^ 64 * n) % 2 ^ 64 ≡ 0
    multiple x n = omega arith

-- A shift to the right by 64 or more leaves nothing, too.
large_quotient : (k x : ℕ) → ltb k 64 ≡ false → IsWord x → x / 2 ^ k ≡ 0
large_quotient k x h small =
    div-eq_of_lt (omega (arith, small, split_power k h, two-pow-pos (k - 64)))

pub shift_left-reduce :
    (more less k : ℕ)
    → unwrap_or (checked_shl (reduce (more, less)) k) 0 ≡ reduce (more * 2 ^ k, less * 2 ^ k)
shift_left-reduce more less k = elim (Bool-cases (ltb k 64)) [
  | inl small ↦ rw small (
      reduce_unique (shl (reduce (more, less)) k) (more * 2 ^ k) (less * 2 ^ k) (omega arith)
        (scaled (reduce (more, less)) (2 ^ k) more less (reduce-Same more less)))
  | inr large ↦ rw (large, large_power k more large, large_power k less large) refl
]
  where
    scaled :
        (a factor more less : ℕ)
        → Same (a + less) more
        → Same (a * factor % 2 ^ 64 + less * factor) (more * factor)
    scaled a factor more less same = omega (arith, mul-Same (a + less) more factor same)

word-reduce : (x : ℕ) → IsWord x → x ≡ reduce (x, 0)
word-reduce x h = omega (arith, h)

quotient-IsWord : (x power : ℕ) → IsWord x → IsWord (x / power)
quotient-IsWord x power h = omega (arith, h, div-le_self x power)

pub shift_right-reduce :
    (x k : ℕ) → IsWord x → unwrap_or (checked_shr x k) 0 ≡ reduce (x / 2 ^ k, 0)
shift_right-reduce x k h = elim (Bool-cases (ltb k 64)) [
  | inl small ↦ rw small (word-reduce (x / 2 ^ k) (quotient-IsWord x (2 ^ k) h))
  | inr large ↦ rw (large, large_quotient k x large h) refl
]

complement-reduce : (x : ℕ) → IsWord x → 2 ^ 64 - 1 - x ≡ reduce (0, x + 1)
complement-reduce x h = omega (arith, h)

complement-IsWord : (x : ℕ) → IsWord (2 ^ 64 - 1 - x)
complement-IsWord x = omega arith

pub shift_arithmetic-reduce :
    (x k : ℕ) → IsWord x → shift_arithmetic x k ≡ reduce (signed_quotient x (2 ^ k))
unfolding shift_arithmetic
shift_arithmetic-reduce x k h = elim (Bool-cases (ltb k 64)) [
  | inl small ↦ elim (Bool-cases (ltb x (2 ^ 63))) [
    | inl positive ↦ rw (small, positive) (word-reduce (x / 2 ^ k) (quotient-IsWord x (2 ^ k) h))
    | inr negative ↦
        rw (small, negative)
          (complement-reduce ((2 ^ 64 - 1 - x) / 2 ^ k)
            (quotient-IsWord (2 ^ 64 - 1 - x) (2 ^ k) (complement-IsWord x)))
  ]
  | inr large ↦ elim (Bool-cases (ltb x (2 ^ 63))) [
    | inl positive ↦ rw (large, positive, large_quotient k x large h) refl
    | inr negative ↦
        rw (large, negative, large_quotient k (2 ^ 64 - 1 - x) large (complement-IsWord x)) refl
  ]
]
