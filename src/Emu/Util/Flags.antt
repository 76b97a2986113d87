-- ===== src/Emu/Util/Flags.antt =====
-- `CPUFlags`, `PrivilegeLevel` and `Condition`. The condition `C` is `if_c`, and so on.
use acca.Prelude.{ℕ, bit_and, Bool, true, false, not, xor, Option, none, some, ◌==◌, if◌then◌else◌}
use acca.Word.{bit_not}
use acca.Emu.Util.Bit.{bit_as_bool, set_bit_with_bool}

pub data PrivilegeLevel : Type 0 where
  pl0 pl1 : PrivilegeLevel

abbrev pub is_pl0 : PrivilegeLevel → Bool
is_pl0 pl0 = true
is_pl0 pl1 = false

abbrev pub is_pl1 : PrivilegeLevel → Bool
is_pl1 pl0 = false
is_pl1 pl1 = true

pub data Condition : Type 0 where
  if_c if_nc if_z if_nz if_o if_no if_s if_ns if_l if_nl : Condition

-- `Condition::test`
unfoldable pub test : Condition → Bool → Bool → Bool → Bool → Bool
test if_c carry zero overflow sign = carry
test if_nc carry zero overflow sign = not carry
test if_z carry zero overflow sign = zero
test if_nz carry zero overflow sign = not zero
test if_o carry zero overflow sign = overflow
test if_no carry zero overflow sign = not overflow
test if_s carry zero overflow sign = sign
test if_ns carry zero overflow sign = not sign
test if_l carry zero overflow sign = xor sign overflow
test if_nl carry zero overflow sign = not (xor sign overflow)

-- `From<u64> for Condition`; `none` is its panic.
unfoldable pub condition_from : ℕ → Option Condition
condition_from value =
    if value == 0
    then some if_c
    else if value == 1
    then some if_nc
    else if value == 2
    then some if_z
    else if value == 3
    then some if_nz
    else if value == 4
    then some if_o
    else if value == 5
    then some if_no
    else if value == 6
    then some if_s
    else if value == 7
    then some if_ns
    else if value == 8
    then some if_l
    else if value == 9
    then some if_nl
    else none

abbrev pub valid_mask : ℕ
valid_mask = 0x3f

abbrev pub new_flags : ℕ
new_flags = 0

abbrev pub carry : ℕ → Bool
carry flags = bit_as_bool flags 0

abbrev pub zero_flag : ℕ → Bool
zero_flag flags = bit_as_bool flags 1

abbrev pub overflow : ℕ → Bool
overflow flags = bit_as_bool flags 2

abbrev pub sign : ℕ → Bool
sign flags = bit_as_bool flags 3

abbrev pub exceptions_enabled : ℕ → Bool
exceptions_enabled flags = bit_as_bool flags 4

abbrev pub privilege_level : ℕ → PrivilegeLevel
privilege_level flags = if bit_as_bool flags 5 then pl1 else pl0

abbrev pub set_carry : ℕ → Bool → ℕ
set_carry flags value = set_bit_with_bool flags 0 value

abbrev pub set_zero : ℕ → Bool → ℕ
set_zero flags value = set_bit_with_bool flags 1 value

abbrev pub set_overflow : ℕ → Bool → ℕ
set_overflow flags value = set_bit_with_bool flags 2 value

abbrev pub set_sign : ℕ → Bool → ℕ
set_sign flags value = set_bit_with_bool flags 3 value

abbrev pub set_exceptions_enabled : ℕ → Bool → ℕ
set_exceptions_enabled flags value = set_bit_with_bool flags 4 value

abbrev pub set_privilege_level : ℕ → PrivilegeLevel → ℕ
set_privilege_level flags value = set_bit_with_bool flags 5 (is_pl1 value)

-- `CPUFlags::test_condition`
unfoldable pub test_condition : ℕ → Condition → Bool
test_condition flags if_c = carry flags
test_condition flags if_nc = not (carry flags)
test_condition flags if_z = zero_flag flags
test_condition flags if_nz = not (zero_flag flags)
test_condition flags if_o = overflow flags
test_condition flags if_no = not (overflow flags)
test_condition flags if_s = sign flags
test_condition flags if_ns = not (sign flags)
test_condition flags if_l = xor (sign flags) (overflow flags)
test_condition flags if_nl = not (xor (sign flags) (overflow flags))

-- `TryFrom<u64> for CPUFlags`; `none` is its error.
unfoldable pub flags_try_from : ℕ → Option ℕ
flags_try_from value = if not (bit_and value (bit_not valid_mask) == 0) then none else some value
