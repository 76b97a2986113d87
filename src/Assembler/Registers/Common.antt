-- ===== src/Assembler/Registers/Common.antt =====
-- `common_register_size` against a definition of its own.
use acca.Prelude.{
  ◌≡◌, refl, inl, inr, Option, none, some, List, [], ◌∷◌, all, if◌then◌else◌, Bool-cases,
}
use acca.Assembler.Outcome.{Outcome, ok, panicked, ◌>>=◌}
use acca.Assembler.Registers.{
  Size, word, Argument, same_size, agreed_size, argument_size, updated_size, common_register_size,
}

abbrev pub with_size : Option Size → List Size → List Size
with_size none sizes = sizes
with_size (some size) sizes = size ∷ sizes

-- The sizes of the arguments that are registers with a size.
abbrev pub sizes_of : List (Option Argument) → List Size
sizes_of [] = []
sizes_of (arg ∷ arguments) = with_size (argument_size arg) (sizes_of arguments)

-- The size that all of them are, which is a word where there is none.
abbrev pub agreement : List Size → Outcome Size
agreement [] = ok word
agreement (size ∷ sizes) = if all (same_size size) sizes then ok size else panicked

round :
    (arg_size operation_size : Option Size) (arguments : List (Option Argument))
    → ((o : Option Size)
        → common_register_size arguments o ≡ agreement (with_size o (sizes_of arguments)))
    → (updated_size arg_size operation_size >>= common_register_size arguments)
      ≡ agreement (with_size operation_size (with_size arg_size (sizes_of arguments)))
unfolding agreed_size
round none operation_size arguments rest = rest operation_size
round (some size) none arguments rest = rest (some size)
round (some size) (some current) arguments rest = elim (Bool-cases (same_size current size)) [
  | inl same ↦ rw same (rest (some current))
  | inr differs ↦ rw differs refl
]

-- The size of an operation is the one size of the suffix, if there is one, and of all the
-- registers with a size; where none has a size it is a word, and where two differ a panic.
pub common_register_size_lem :
    (arguments : List (Option Argument)) (operation_size : Option Size)
    → common_register_size arguments operation_size
      ≡ agreement (with_size operation_size (sizes_of arguments))
unfolding common_register_size
common_register_size_lem [] none = refl
common_register_size_lem [] (some size) = refl
common_register_size_lem (arg ∷ arguments) operation_size =
    round (argument_size arg) operation_size arguments (common_register_size_lem arguments)
