-- ===== src/Assembler/Outcome.antt =====
-- How a piece of acca-as/src/main.rs ends: with a value, in `exit(1)` after a message, or in a
-- panic.
use acca.Prelude.{ℕ, ◌+◌, ◌^◌, Bool, ◌&&◌, Option, none, some, ◌≡◌, refl, leb, if◌then◌else◌}
use acca.Word.{wrapping_add}

pub data Outcome (A : Type 0) : Type 0 where
  ok : A → Outcome A
  exited panicked : Outcome A

infixl 5 ◌>>=◌
abbrev pub ◌>>=◌ : {A B : Type 0} → Outcome A → (A → Outcome B) → Outcome B
ok a >>= f = f a
exited >>= f = exited
panicked >>= f = panicked

-- `Option::unwrap` and `expect`.
abbrev pub unwrap : {A : Type 0} → Option A → Outcome A
unwrap none = panicked
unwrap (some a) = ok a

-- The build profile's `overflow-checks`.
pub record Host : Type 0 where
  pub overflow_checks : Bool

-- `a + b` on two `u64`.
unfoldable pub checked_sum : ⦃host : Host⦄ → ℕ → ℕ → Outcome ℕ
checked_sum ⦃host⦄ a b =
    if host.overflow_checks && leb (2 ^ 64) (a + b) then panicked else ok (wrapping_add a b)

-- A chain that ends well went well at its first step.
pub ok->>= :
    {A B : Type 0} (first : Outcome A) {next : A → Outcome B} {result : B}
    → (first >>= next) ≡ ok result
    → (value : A) × (first ≡ ok value) × (next value ≡ ok result)
ok->>= (ok value) h = (value, refl, h)
ok->>= exited h = cc
ok->>= panicked h = cc

pub unwrap-ok : {A : Type 0} (o : Option A) {a : A} → unwrap o ≡ ok a → o ≡ some a
unwrap-ok none h = cc
unwrap-ok (some a) h = cc

pub ok-injective : {A : Type 0} {a b : A} → ok a ≡ ok b → a ≡ b
ok-injective h = cc
