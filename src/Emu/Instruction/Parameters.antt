-- ===== src/Emu/Instruction/Parameters.antt =====
-- The parameters of a match arm: how acca-emu-proc-macro/src/lib.rs checks them against the
-- encoding, and reads an operand by the type of its parameter.
use acca.Prelude.{
  ℕ, Bool, false, not, ◌&&◌, ◌||◌, Option, none, some, List, [], ◌∷◌, all, ◌==◌, bit_and,
}
use acca.Encoding.Scan.{InstructionBit, zero_bit, one_bit, variable}
use acca.Emu.Util.Bit.{sign_extend_immediate}
use acca.Emu.Util.Size.{Size, size_from}
use acca.Emu.Util.Register.{register_from}
use acca.Emu.Util.Flags.{Condition, condition_from}
use acca.Emu.Instruction.Operands.{nullable_register, nullable_condition}

pub data ParameterType : Type 0 where
  register nullable_register_type boolean size condition nullable_condition_type : ParameterType
  immediate relative_immediate : ℕ → ParameterType

-- A parameter: the variable of the encoding, and the type.
abbrev pub Parameter : Type 0
Parameter = ℕ × ParameterType

-- What an operand is read as.
pub data Operand : Type 0 where
  register_id number : ℕ → Operand
  optional_register : Option ℕ → Operand
  flag : Bool → Operand
  size_of : Size → Operand
  condition_of : Condition → Operand
  optional_condition : Option Condition → Operand

abbrev read_as : {A : Type 0} → (A → Operand) → Option A → Option Operand
read_as make none = none
read_as make (some a) = some (make a)

-- `val`, from the bits of the variable; `none` is a panic.
unfoldable pub operand_value : ParameterType → ℕ → Option Operand
operand_value boolean bits = some (flag (not (bit_and bits 1 == 0)))
operand_value condition bits = read_as condition_of (condition_from bits)
operand_value nullable_condition_type bits = read_as optional_condition (nullable_condition bits)
operand_value (immediate width) bits = some (number bits)
operand_value (relative_immediate width) bits = some (number (sign_extend_immediate bits width))
operand_value nullable_register_type bits = read_as optional_register (nullable_register bits)
operand_value register bits = read_as register_id (register_from bits)
operand_value size bits = read_as size_of (size_from bits)

abbrev pub both : Option Operand → Option (List Operand) → Option (List Operand)
both none operands = none
both (some operand) none = none
both (some operand) (some operands) = some (operand ∷ operands)

-- The variables of an arm, in the order of its parameters.
unfoldable pub operand_values : List Parameter → (ℕ → ℕ) → Option (List Operand)
operand_values [] value = some []
operand_values ((name, ty) ∷ parameters) value =
    both (operand_value ty (value name)) (operand_values parameters value)

abbrev pub member : ℕ → List ℕ → Bool
member char [] = false
member char (first ∷ rest) = char == first || member char rest

abbrev pub names : List Parameter → List ℕ
names [] = []
names ((name, ty) ∷ parameters) = name ∷ names parameters

-- The keys of `var_bits`.
abbrev pub variables : List InstructionBit → List ℕ
variables [] = []
variables (zero_bit ∷ bits) = variables bits
variables (one_bit ∷ bits) = variables bits
variables (variable char ∷ bits) = char ∷ variables bits

-- Whether neither a variable lacks its parameter nor a parameter its variable.
unfoldable pub is_accepted : List InstructionBit → List Parameter → Bool
is_accepted bits parameters =
    all (λ char. member char (names parameters)) (variables bits)
    && all (λ name. member name (variables bits)) (names parameters)
