-- ===== src/Assembler/Registers.antt =====
-- Registers, sizes, conditions and arguments, and `common_register_size`.
pub mod Common
use acca.Prelude.{ℕ, Bool, true, false, Option, none, some, List, [], ◌∷◌, if◌then◌else◌}
use acca.Assembler.Outcome.{Outcome, ok, panicked, ◌>>=◌}

pub data Size : Type 0 where
  byte double_byte quad_byte word : Size

abbrev pub size_code : Size → ℕ
size_code byte = 0
size_code double_byte = 1
size_code quad_byte = 2
size_code word = 3

abbrev pub byte_size : Size → ℕ
byte_size byte = 1
byte_size double_byte = 2
byte_size quad_byte = 4
byte_size word = 8

pub data Condition : Type 0 where
  if_c if_nc if_z if_nz if_o if_no if_s if_ns if_l if_nl if_none : Condition

abbrev pub condition_code : Condition → ℕ
condition_code if_c = 0
condition_code if_nc = 1
condition_code if_z = 2
condition_code if_nz = 3
condition_code if_o = 4
condition_code if_no = 5
condition_code if_s = 6
condition_code if_ns = 7
condition_code if_l = 8
condition_code if_nl = 9
condition_code if_none = 15

pub record Register : Type 0 where
  pub id : ℕ
  pub size : Option Size

pub data Argument : Type 0 where
  register : Register → Argument
  immediate : ℕ → Argument

-- `Argument::map_immediate`
abbrev pub map_immediate : (ℕ → ℕ) → Argument → Argument
map_immediate f (Argument.register reg) = Argument.register reg
map_immediate f (Argument.immediate imm) = Argument.immediate (f imm)

abbrev pub same_size : Size → Size → Bool
same_size byte byte = true
same_size double_byte double_byte = true
same_size quad_byte quad_byte = true
same_size word word = true
same_size _ _ = false

-- One round of the loop of `common_register_size`, on the size of a register.
unfoldable pub agreed_size : Size → Option Size → Outcome (Option Size)
agreed_size reg_size none = ok (some reg_size)
agreed_size reg_size (some current_size) =
    if same_size current_size reg_size then ok (some current_size) else panicked

abbrev pub argument_size : Option Argument → Option Size
argument_size (some (Argument.register reg)) = reg.size
argument_size (some (Argument.immediate imm)) = none
argument_size none = none

abbrev pub updated_size : Option Size → Option Size → Outcome (Option Size)
updated_size none operation_size = ok operation_size
updated_size (some reg_size) operation_size = agreed_size reg_size operation_size

unfoldable pub common_register_size : List (Option Argument) → Option Size → Outcome Size
common_register_size [] none = ok word
common_register_size [] (some size) = ok size
common_register_size (arg ∷ arguments) operation_size = do
  size ← updated_size (argument_size arg) operation_size
  common_register_size arguments size
