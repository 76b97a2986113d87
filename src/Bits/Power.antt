-- ===== src/Bits/Power.antt =====
-- Quotients and remainders by a power of two, one binary digit at a time.
use native.Mathlib.Nat.{two-pow-succ, one-le-pow, div-div-eq-div-mul, div-add-mod}
use acca.Prelude.{ℕ, suc, ◌+◌, ◌*◌, ◌/◌, ◌%◌, ◌^◌, ◌<◌, ◌≡◌, ap, arith}

pub two-pow-pos : (k : ℕ) → 0 < 2 ^ k
two-pow-pos k = one-le-pow k 2 (omega arith)

pub two-pow-double : (k : ℕ) → 2 ^ suc k ≡ 2 * 2 ^ k
two-pow-double k = omega (arith, two-pow-succ k)

pub div-two-pow-suc : (k a : ℕ) → a / 2 ^ suc k ≡ a / 2 / 2 ^ k
div-two-pow-suc k a =
    omega (arith, div-div-eq-div-mul a 2 (2 ^ k), ap (λ (t : ℕ). a / t) (two-pow-double k))

pub mod-two-pow-suc : (k a : ℕ) → a % 2 ^ suc k ≡ a / 2 % 2 ^ k * 2 + a % 2
mod-two-pow-suc k a = omega (
  arith,
  div-add-mod a (2 ^ suc k),
  div-add-mod (a / 2) (2 ^ k),
  ap (λ (t : ℕ). t * (a / 2 ^ suc k)) (two-pow-double k),
  ap (λ (t : ℕ). 2 ^ k * t) (div-two-pow-suc k a),
)
