-- ===== src/Assembler/Macro/Fuel.antt =====
-- The loops of `instruction_helper` and of `instruction_body!` take a token in each round, so that
-- as many rounds as there are tokens are enough.
use Prim.Native.String.{String}
use acca.Prelude.{
  ℕ, zero, suc, ◌≤◌, Bool, true, false, ◌≢◌, Option, none, some, List, ◌==◌, if◌then◌else◌, arith,
}
use acca.Assembler.Template.{ArgumentType}
use acca.Assembler.Macro.Tokens.{
  alone, parenthesis, bracket, ident, literal, punct, group, Tokens, ◌▸◌, Expansion, done, panicked,
  out_of_fuel, ◌>>=◌, expect, length,
}
use acca.Assembler.Macro.Types.{argument_type, alternative_type, alternatives}
use acca.Assembler.Macro.Header.{
  Litrs, Argument, needed_comma, optional_comma, consumer, default_value, named_argument,
  handle_tok, read_arguments,
}

-- An expansion does not run out of fuel, and a value that it ends with has a property.
pub data Ensures {A : Type 0} (P : A → Type 0) : Expansion A → Type 0 where
  holds : {a : A} → P a → Ensures P (done a)
  refused : Ensures P panicked

module _ {A : Type 0} {P : A → Type 0} where
  pub Ensures-≢ : {e : Expansion A} → Ensures P e → e ≢ out_of_fuel
  Ensures-≢ (holds h) = cc
  Ensures-≢ refused = cc

  pub Ensures->>= :
      {B : Type 0} {Q : B → Type 0} {e : Expansion A} {f : A → Expansion B}
      → Ensures P e
      → ((a : A) → P a → Ensures Q (f a))
      → Ensures Q (e >>= f)
  Ensures->>= (holds {a} h) next = next a h
  Ensures->>= refused next = refused

  pub Ensures-if :
      (b : Bool) {x y : Expansion A} → Ensures P x → Ensures P y → Ensures P (if b then x else y)
  Ensures-if true hx hy = hx
  Ensures-if false hx hy = hy

pub Ensures-expect : {A : Type 0} (o : Option A) → Ensures (λ _. Unit) (expect o)
Ensures-expect none = refused
Ensures-expect (some a) = holds tt

-- The tokens left are at most `n`.
abbrev pub Left : {A : Type 0} → ℕ → A × Tokens → Type 0
Left n (a, rest) = length rest ≤ n

alternatives-Left :
    (typestring : String) (argtype : ArgumentType) (tokens : Tokens) (n : ℕ)
    → length tokens ≤ n
    → Ensures (Left n) (alternatives typestring argtype tokens)
unfolding alternatives
alternatives-Left typestring argtype (punct char spacing ▸ ident alt ▸ rest) n h =
    Ensures-if (char == b'|')
      (Ensures->>= (Ensures-expect (alternative_type argtype typestring alt))
        λ ty _. alternatives-Left typestring ty rest n (omega arith))
      (holds h)
alternatives-Left typestring argtype (punct char spacing ▸ rest) n h =
    Ensures-if (char == b'|') refused (holds h)
alternatives-Left typestring argtype tokens n h = holds h

default_value-Left :
    ⦃litrs : Litrs⦄ (tokens : Tokens) (n : ℕ)
    → length tokens ≤ n
    → Ensures (Left n) (default_value tokens)
unfolding default_value
default_value-Left ⦃litrs⦄ (punct char alone ▸ literal lit ▸ rest) n h =
    Ensures-if (char == b'=')
      (Ensures->>= (Ensures-expect (litrs.integer_value lit)) λ value _. holds (omega arith))
      (holds h)
default_value-Left (punct char alone ▸ rest) n h = Ensures-if (char == b'=') refused (holds h)
default_value-Left tokens n h = holds h

consumer-Left : (tokens : Tokens) → Left (length tokens) (consumer tokens)
unfolding consumer
consumer-Left (group parenthesis inner ▸ rest) = omega arith
consumer-Left _ = omega arith

optional_comma-Left : (tokens : Tokens) → Left (length tokens) (optional_comma tokens)
unfolding optional_comma
optional_comma-Left (punct char spacing ▸ rest) = ground arith
optional_comma-Left _ = omega arith

needed_comma-length :
    (needs_comma : Bool) (tokens : Tokens)
    → Ensures (λ rest. length rest ≤ length tokens) (needed_comma needs_comma tokens)
unfolding needed_comma
needed_comma-length false tokens = holds (omega arith)
needed_comma-length true (punct char spacing ▸ rest) =
    Ensures-if (char == b',') (holds (omega arith)) refused
needed_comma-length true _ = refused

-- A named argument takes at least one token.
named_argument-Left :
    ⦃litrs : Litrs⦄ (grouped : Bool) (tokens : Tokens) (n : ℕ)
    → length tokens ≤ suc n
    → Ensures (Left n) (named_argument grouped tokens)
unfolding named_argument
named_argument-Left grouped (ident argname ▸ punct char spacing ▸ ident typestring ▸ rest) n h =
    Ensures-if (char == b':')
      (Ensures->>= (Ensures-expect (argument_type typestring)) λ first _.
        Ensures->>= (alternatives-Left typestring first rest n (omega arith)) λ (argtype, rest') h'.
          Ensures->>= {P = Left n}
            (Ensures-if grouped
              (default_value-Left ((consumer rest').1) n (omega (arith, consumer-Left rest')))
              (holds (omega (arith, consumer-Left rest'))))
            λ (default, rest'') h''. holds h'')
      refused
named_argument-Left grouped _ n h = refused

handle_tok-Left :
    ⦃litrs : Litrs⦄ (grouped needs_comma : Bool) (tokens : Tokens) (n : ℕ)
    → length tokens ≤ suc n
    → Ensures (λ (argument, comma, rest). length rest ≤ n) (handle_tok grouped needs_comma tokens)
unfolding handle_tok
handle_tok-Left grouped needs_comma tokens n h =
    Ensures->>= (needed_comma-length needs_comma tokens) λ rest h'.
      Ensures->>= (named_argument-Left grouped rest n (omega arith))
        λ (argument, rest') h''. holds (omega (arith, optional_comma-Left rest'))

pub read_arguments-Left :
    ⦃litrs : Litrs⦄ (fuel : ℕ) (args : List Argument) (needs_comma : Bool) (tokens : Tokens)
    → length tokens ≤ fuel
    → Ensures (λ _. Unit) (read_arguments fuel args needs_comma tokens)
unfolding read_arguments
read_arguments-Left zero args needs_comma (group bracket inner ▸ rest) h = absurd (omega arith)
read_arguments-Left zero args needs_comma (ident name ▸ rest) h = absurd (omega arith)
read_arguments-Left (suc fuel) args needs_comma (group bracket inner ▸ rest) h =
    Ensures->>= (handle_tok-Left true needs_comma inner (length inner) (omega arith))
      λ (argument, _, _) _. read_arguments-Left fuel _ _ _ (omega (arith, optional_comma-Left rest))
read_arguments-Left (suc fuel) args needs_comma (ident name ▸ rest) h =
    Ensures->>= (handle_tok-Left false needs_comma (ident name ▸ rest) fuel h)
      λ (argument, comma, rest') h'. read_arguments-Left fuel _ comma rest' h'
read_arguments-Left fuel args needs_comma (literal lit ▸ rest) h = refused
read_arguments-Left fuel args needs_comma _ h = holds tt
