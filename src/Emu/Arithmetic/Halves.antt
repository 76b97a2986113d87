-- ===== src/Emu/Arithmetic/Halves.antt =====
-- The condition bits of a sum and of a difference of numbers below `2 * h`, from the top bits.
use mathlib.Core.Bool.{xor}
use acca.Prelude.{
  ℕ, ◌+◌, ◌-◌, ◌*◌, ◌<◌, ◌≡◌, refl, arith, Bool, true, false, not, ◌&&◌, ◌||◌, ltb, leb,
  if◌then◌else◌,
}

-- The bits of a sum, from the operands `a` and `b` below `2 * h`, the carry `c` and the result
-- `r`, cut to the range.
pub carry_of_sum :
    (h a b c r : ℕ)
    → a < 2 * h
    → b < 2 * h
    → c < 2
    → r < 2 * h
    → r ≡ (if leb (2 * h) (a + b + c) then a + b + c - 2 * h else a + b + c)
    → ((leb h a && leb h b) || ((leb h a || leb h b) && not (leb h r))) ≡ leb (2 * h) (a + b + c)
carry_of_sum h a b c r ha hb hc hr e = ground arith

-- The signed value of an operand, moved up by `h`.
abbrev pub moved : ℕ → ℕ → ℕ
moved h a = if leb h a then a - h else a + h

pub overflow_of_sum :
    (h a b c r : ℕ)
    → a < 2 * h
    → b < 2 * h
    → c < 2
    → r < 2 * h
    → r ≡ (if leb (2 * h) (a + b + c) then a + b + c - 2 * h else a + b + c)
    → (((leb h a && leb h b) && not (leb h r)) || ((not (leb h a) && not (leb h b)) && leb h r))
      ≡ (ltb (moved h a + moved h b + c) h || leb (3 * h) (moved h a + moved h b + c))
overflow_of_sum h a b c r ha hb hc hr e = ground arith

pub borrow_of_difference :
    (h a b c r : ℕ)
    → a < 2 * h
    → b < 2 * h
    → c < 2
    → r < 2 * h
    → r ≡ (if ltb a (b + c) then a + 2 * h - (b + c) else a - (b + c))
    → (((not (leb h a) && leb h b) || (leb h r && leb h b)) || (leb h r && not (leb h a)))
      ≡ ltb a (b + c)
borrow_of_difference h a b c r ha hb hc hr e = ground arith

pub overflow_of_difference :
    (h a b c r : ℕ)
    → a < 2 * h
    → b < 2 * h
    → c < 2
    → r < 2 * h
    → r ≡ (if ltb a (b + c) then a + 2 * h - (b + c) else a - (b + c))
    → (((leb h a && not (leb h b)) && not (leb h r)) || ((not (leb h a) && leb h b) && leb h r))
      ≡ (ltb (moved h a + h) (moved h b + c) || leb (moved h b + c + h) (moved h a))
overflow_of_difference h a b c r ha hb hc hr e = ground arith

xor-cases : (x y t : Bool) → (x ≡ true → not y ≡ t) → (x ≡ false → y ≡ t) → xor x y ≡ t
unfolding xor
xor-cases true true t up down = up refl
xor-cases true false t up down = up refl
xor-cases false true t up down = down refl
xor-cases false false t up down = down refl

pub sign_of_difference :
    (h a b c r : ℕ)
    → a < 2 * h
    → b < 2 * h
    → c < 2
    → r < 2 * h
    → r ≡ (if ltb a (b + c) then a + 2 * h - (b + c) else a - (b + c))
    → xor
        (leb h r)
        (((leb h a && not (leb h b)) && not (leb h r)) || ((not (leb h a) && leb h b) && leb h r))
      ≡ ltb (moved h a) (moved h b + c)
sign_of_difference h a b c r ha hb hc hr e =
    xor-cases (leb h r) _ _ (λ positive. ground (arith, positive))
      (λ negative. ground (arith, negative))
