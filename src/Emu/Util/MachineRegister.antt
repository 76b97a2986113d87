-- ===== src/Emu/Util/MachineRegister.antt =====
-- `MachineRegisterID`.
use acca.Prelude.{ℕ, Bool, not, ◌&&◌, ◌||◌}
use acca.Emu.Util.Flags.{PrivilegeLevel, is_pl0}

pub data MachineRegisterId : Type 0 where
  flags elr esp eflags einfo eaddr evtable ectable vm_console : MachineRegisterId

-- The discriminants of the `repr(u32)` enum.
abbrev pub discriminant : MachineRegisterId → ℕ
discriminant flags = 0
discriminant elr = 1
discriminant esp = 2
discriminant eflags = 3
discriminant einfo = 4
discriminant eaddr = 5
discriminant evtable = 6
discriminant ectable = 7
discriminant vm_console = 0xdead1

unfoldable pub check_access : MachineRegisterId → PrivilegeLevel → Bool → Bool
check_access flags priv_level write = not write || is_pl0 priv_level
check_access elr priv_level write = is_pl0 priv_level
check_access esp priv_level write = is_pl0 priv_level
check_access eflags priv_level write = is_pl0 priv_level
check_access evtable priv_level write = is_pl0 priv_level
check_access ectable priv_level write = is_pl0 priv_level
check_access einfo priv_level write = not write && is_pl0 priv_level
check_access eaddr priv_level write = not write && is_pl0 priv_level
check_access vm_console priv_level write = write
