-- ===== src/Assembler/Literal/Radix.antt =====
-- The number that `u64::from_str_radix` reads.
use native.Mathlib.Nat.{mul-suc}
use acca.Prelude.{
  ℕ, zero, suc, ◌+◌, ◌*◌, ◌^◌, ◌<◌, ◌≤◌, ◌≡◌, refl, sym, ap, ◌∙◌, inl, inr, Bool, true, false,
  Option, none, some, List, [], ◌∷◌, map, ltb, ◌==◌, if◌then◌else◌, Bool-cases, ltb→lt, lt→ltb,
  arith, All, ◌&&◌,
}
use acca.Assembler.Literal.Written.{
  digit_char, literal_char, IsDigit, has_radix, number, LiteralChar, underscore, digit,
}
use acca.Assembler.Literal.{to_digit, next_value, digits_value, from_str_radix, without_underscores}

to_digit-digit_char :
    (radix : ℕ) (upper : Bool) (d : ℕ)
    → radix ≤ 16
    → d < 16
    → to_digit radix (digit_char upper d) ≡ (if ltb d radix then some d else none)
unfolding to_digit
to_digit-digit_char radix true d h below = ground arith
to_digit-digit_char radix false d h below = ground arith

no_underscore : (upper : Bool) (d : ℕ) → d < 16 → (digit_char upper d == b'_') ≡ false
no_underscore upper d h = ground arith

failed : (radix : ℕ) (chars : List ℕ) → digits_value radix chars none ≡ none
unfolding digits_value
failed radix [] = refl
failed radix (char ∷ chars) = refl

grows : (value radix d : ℕ) → 0 < radix → value ≤ value * radix + d
grows value (suc radix) d h = omega (arith, mul-suc value radix)
grows value zero d h = absurd (omega arith)

number-le :
    (radix value : ℕ) (chars : List LiteralChar) → 0 < radix → value ≤ number radix value chars
number-le radix value [] h = omega arith
number-le radix value (underscore ∷ chars) h = number-le radix value chars h
number-le radix value (digit upper d ∷ chars) h =
    omega (arith, grows value radix d h, number-le radix (value * radix + d) chars h)

too_large :
    (radix value : ℕ) (chars : List LiteralChar)
    → 0 < radix
    → ltb value (2 ^ 64) ≡ false
    → ltb (number radix value chars) (2 ^ 64) ≡ false
too_large radix value chars h large = ground (arith, number-le radix value chars h, large)

keep_digit :
    (upper : Bool) (d : ℕ) (chars : List ℕ)
    → d < 16
    → without_underscores (digit_char upper d ∷ chars)
      ≡ digit_char upper d ∷ without_underscores chars
keep_digit upper d chars h = rw (no_underscore upper d h) refl

-- The number of digits of the radix, if it is below 2^64.
abbrev pub represented : ℕ → ℕ → List LiteralChar → Option ℕ
represented radix value chars =
    if has_radix radix chars && ltb (number radix value chars) (2 ^ 64)
    then some (number radix value chars)
    else none

false_right : (b : Bool) → (b && false) ≡ false
false_right true = refl
false_right false = refl

digits_value-digit :
    (radix value : ℕ) (upper : Bool) (d : ℕ) (chars : List LiteralChar)
    → radix ≤ 16
    → d < 16
    → digits_value radix
        (without_underscores (map literal_char (digit upper d ∷ chars)))
        (some value)
      ≡ digits_value radix
          (without_underscores (map literal_char chars))
          (next_value radix value (if ltb d radix then some d else none))
unfolding digits_value
digits_value-digit radix value upper d chars small below =
    let codes = map literal_char chars in
    ap (λ cs. digits_value radix cs (some value)) (keep_digit upper d codes below)
    ∙ ap (λ o. digits_value radix (without_underscores codes) (next_value radix value o))
        (to_digit-digit_char radix upper d small below)

digits_value_lem :
    (radix value : ℕ) (chars : List LiteralChar)
    → 0 < radix
    → radix ≤ 16
    → value < 2 ^ 64
    → All (IsDigit 16) chars
    → digits_value radix (without_underscores (map literal_char chars)) (some value)
      ≡ represented radix value chars
unfolding digits_value next_value
digits_value_lem radix value [] h small below digits = rw (lt→ltb value (2 ^ 64) below) refl
digits_value_lem radix value (underscore ∷ chars) h small below (_, rest) =
    digits_value_lem radix value chars h small below rest
digits_value_lem radix value (digit upper d ∷ chars) h small below (is_digit, rest) =
    digits_value-digit radix value upper d chars small is_digit ∙ elim (Bool-cases (ltb d radix)) [
      | inl inside ↦ elim (Bool-cases (ltb (value * radix + d) (2 ^ 64))) [
        | inl fits ↦
            rw (inside, fits)
              (digits_value_lem radix (value * radix + d) chars h small
                (ltb→lt (value * radix + d) (2 ^ 64) fits) rest)
        | inr overflows ↦
            rw
              (
                inside,
                overflows,
                failed radix (without_underscores (map literal_char chars)),
                too_large radix (value * radix + d) chars h overflows,
                false_right (has_radix radix chars),
              )
              refl
      ]
      | inr outside ↦ rw (outside, failed radix (without_underscores (map literal_char chars))) refl
    ]

no_plus : (upper : Bool) (d : ℕ) → d < 16 → (digit_char upper d == b'+') ≡ false
no_plus upper d h = ground arith

from_str_radix-digit :
    (upper : Bool) (d radix : ℕ) (chars : List ℕ)
    → d < 16
    → from_str_radix (digit_char upper d ∷ chars) radix
      ≡ digits_value radix (digit_char upper d ∷ chars) (some 0)
unfolding from_str_radix
from_str_radix-digit upper d radix [] h = refl
from_str_radix-digit upper d radix (next ∷ chars) h = rw (no_plus upper d h) refl

pub from_str_radix-digits :
    (radix : ℕ) (upper : Bool) (first : ℕ) (rest : List LiteralChar)
    → 0 < radix
    → radix ≤ 16
    → All (IsDigit 16) (digit upper first ∷ rest)
    → from_str_radix (without_underscores (map literal_char (digit upper first ∷ rest))) radix
      ≡ represented radix 0 (digit upper first ∷ rest)
from_str_radix-digits radix upper first rest h small digits =
    let chars = map literal_char rest in
    let kept = keep_digit upper first chars digits.0 in
    ap (λ cs. from_str_radix cs radix) kept
    ∙ (from_str_radix-digit upper first radix (without_underscores chars) digits.0
        ∙ (ap (λ cs. digits_value radix cs (some 0)) (sym kept)
            ∙ digits_value_lem radix 0 (digit upper first ∷ rest) h small (omega arith) digits))
