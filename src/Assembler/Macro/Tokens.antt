-- ===== src/Assembler/Macro/Tokens.antt =====
-- The tokens that acca-as-proc-macro/src/lib.rs reads (`proc_macro::TokenTree`), and how an
-- expansion of a macro ends.
use Prim.Native.Char.{code}
use Prim.Native.String.{String}
use acca.Prelude.{ℕ, suc, List, [], ◌∷◌, Option, none, some}

pub data Spacing : Type 0 where
  alone joint : Spacing

pub data Delimiter : Type 0 where
  parenthesis brace bracket : Delimiter

-- A group holds tokens. A punctuation character is its code.
infixr 5 ◌▸◌
mutual
  pub data Token : Type 0 where
    ident literal : String → Token
    punct : ℕ → Spacing → Token
    group : Delimiter → Tokens → Token

  pub data Tokens : Type 0 where
    end : Tokens
    ◌▸◌ : Token → Tokens → Tokens

abbrev pub length : Tokens → ℕ
length end = 0
length (token ▸ tokens) = suc (length tokens)

infixr 5 ◌++◌
abbrev pub ◌++◌ : Tokens → Tokens → Tokens
end ++ tokens = tokens
(token ▸ first) ++ tokens = token ▸ (first ++ tokens)

-- The value of an expansion, a panic of the macro, or the end of the fuel.
pub data Expansion (A : Type 0) : Type 0 where
  done : A → Expansion A
  panicked out_of_fuel : Expansion A

infixl 5 ◌>>=◌
abbrev pub ◌>>=◌ : {A B : Type 0} → Expansion A → (A → Expansion B) → Expansion B
done a >>= f = f a
panicked >>= f = panicked
out_of_fuel >>= f = out_of_fuel

abbrev pub expect : {A : Type 0} → Option A → Expansion A
expect none = panicked
expect (some a) = done a

-- The characters of a text.
abbrev pub codes : String → List ℕ
codes String.[] = []
codes (String.◌∷◌ ch string) = code ch ∷ codes string

-- A list of identifiers, as tokens.
abbrev pub idents : List String → Tokens
idents [] = end
idents (name ∷ names) = ident name ▸ idents names
