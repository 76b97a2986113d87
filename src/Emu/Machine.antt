-- ===== src/Emu/Machine.antt =====
-- `ldm` and `stm`, the accesses to machine registers.
pub mod Access
use acca.Prelude.{
  ℕ, zero, suc, ◌%◌, ◌^◌, bit_and, Bool, true, false, not, ◌&&◌, none, some, List, [], ◌∷◌, take,
  drop, all, ◌==◌, if◌then◌else◌,
}
use acca.Word.{from_le_bytes}
use acca.Emu.Platform.{Platform}
use acca.Emu.Util.Flags.{privilege_level, flags_try_from}
use acca.Emu.Util.MachineRegister.{
  MachineRegisterId, flags, elr, esp, eflags, einfo, eaddr, evtable, ectable, vm_console,
  check_access,
}
use acca.Emu.State.{
  Vm, ExceptionConfigurationEntry, ExceptionConfigurationTable, register, set_register, Flow, ok,
  panic, ◌>>=◌,
}
use acca.Emu.Exception.{invalid_operation, validate, raise}
use acca.Emu.Memory.{get_memory}

-- `VMAddress::is_valid_instruction_pointer`
unfoldable pub is_valid_instruction_pointer : ℕ → Bool
is_valid_instruction_pointer address = bit_and address 3 == 0

-- `read_unaligned` of the table: entries of three little-endian words, in declaration order.
unfoldable pub read_entries : ℕ → List ℕ → List ExceptionConfigurationEntry
read_entries zero bytes = []
read_entries (suc n) bytes =
    record {
      flags = from_le_bytes (take 8 bytes);
      stack_pointer = from_le_bytes (take 8 (drop 8 bytes));
      stack_size = from_le_bytes (take 8 (drop 16 bytes));
    }
    ∷ read_entries n (drop 24 bytes)

unfoldable pub read_table : List ℕ → ExceptionConfigurationTable
unfolding read_entries
read_table bytes = record { pl0 = read_entries 8 bytes; pl1 = read_entries 8 (drop 192 bytes) }

-- The value of a machine register; the console has none, the source's `unreachable!`.
unfoldable pub machine_register : MachineRegisterId → Vm → Flow ℕ
machine_register flags vm = ok vm.flags
machine_register elr vm = ok vm.elr
machine_register esp vm = ok vm.esp
machine_register eflags vm = ok vm.eflags
machine_register einfo vm = ok vm.einfo
machine_register eaddr vm = ok vm.eaddr
machine_register evtable vm = ok vm.evtable_addr
machine_register ectable vm = ok vm.ectable_addr
machine_register vm_console vm = panic

module _ ⦃platform : Platform⦄ where
  -- The two tests that `ldm` and `stm` begin with.
  unfoldable pub accessible : ℕ → Bool → Vm → Flow MachineRegisterId
  accessible mreg write vm = elim (platform.try_from mreg) [
    | none ↦ raise invalid_operation vm
    | some id ↦
        if not (check_access id (privilege_level vm.flags) write)
        then raise invalid_operation vm
        else ok id
  ]

  unfoldable pub ldm : ℕ → ℕ → Vm → Flow Vm
  ldm dst src_mreg vm = do
    id ← accessible (src_mreg % 2 ^ 32) false vm
    val ← machine_register id vm
    ok (set_register vm dst val)

  -- `Ok(flags) = src.try_into()`, or an invalid operation.
  unfoldable pub as_flags : ℕ → Vm → Flow ℕ
  as_flags src vm = elim (flags_try_from src) [
    | none ↦ raise invalid_operation vm
    | some value ↦ ok value
  ]

  unfoldable pub as_vector : ℕ → Vm → Flow ℕ
  as_vector src vm = if is_valid_instruction_pointer src then ok src else raise invalid_operation vm

  unfoldable pub install_table : ℕ → ExceptionConfigurationTable → Vm → Flow Vm
  install_table src table vm =
      if all validate table.pl0 && all validate table.pl1
      then ok (record vm { ectable_addr = src; ectable = table })
      else raise invalid_operation vm

  unfoldable pub load_ectable : ℕ → Vm → Flow Vm
  unfolding install_table
  load_ectable src vm = do mem ← get_memory false src 384 vm; install_table src (read_table mem) vm

  -- The `match` of `stm`; the last two cases are its `unreachable!`.
  unfoldable pub set_machine_register : MachineRegisterId → ℕ → Vm → Flow Vm
  set_machine_register flags src vm = do value ← as_flags src vm; ok (record vm { flags = value })
  set_machine_register elr src vm = do value ← as_vector src vm; ok (record vm { elr = value })
  set_machine_register esp src vm = ok (record vm { esp = src })
  set_machine_register eflags src vm = do value ← as_flags src vm; ok (record vm { eflags = value })
  set_machine_register evtable src vm = do
    value ← as_vector src vm
    ok (record vm { evtable_addr = value })
  set_machine_register ectable src vm = load_ectable src vm
  set_machine_register vm_console src vm = ok (record vm { console = (src % 2 ^ 8) ∷ vm.console })
  set_machine_register einfo src vm = panic
  set_machine_register eaddr src vm = panic

  unfoldable pub stm : ℕ → ℕ → Vm → Flow Vm
  stm dst_mreg src vm = do
    id ← accessible (dst_mreg % 2 ^ 32) true vm
    set_machine_register id (register vm src) vm
