-- ===== src/Emu/Exception.antt =====
-- `Exception`, the exception tables and `take_exception`.
pub mod Info
use acca.Prelude.{
  ℕ, ◌*◌, bit_or, Bool, true, false, ◌&&◌, ◌||◌, none, some, List, get_or, ltb, if◌then◌else◌,
}
use acca.Word.{shl, wrapping_add}
use acca.Emu.Platform.{Platform}
use acca.Emu.Util.Register.{sp}
use acca.Emu.Util.Flags.{
  PrivilegeLevel, pl0, pl1, privilege_level, set_exceptions_enabled, set_privilege_level,
}
use acca.Emu.State.{
  Vm, ExceptionConfigurationEntry, ExceptionConfigurationTable, default_entry, register,
  set_register, Flow, returned,
}

pub data Exception : Type 0 where
  unknown invalid_instruction debug : Exception
  user : ℕ → Exception
  invalid_operation instruction_load_error : Exception
  data_load_error : ℕ → Bool → ℕ → Exception
  interrupt : ℕ → Exception

-- `Exception::id`, the discriminant of the `repr(u8)` enum.
abbrev pub id : Exception → ℕ
id unknown = 0
id invalid_instruction = 1
id debug = 2
id (user value) = 3
id invalid_operation = 4
id instruction_load_error = 5
id (data_load_error address write byte_size) = 6
id (interrupt value) = 7

unfoldable pub exception_info : Exception → ℕ
exception_info unknown = 0
exception_info invalid_instruction = 1
exception_info debug = 2
exception_info (user value) = bit_or 3 (shl value 3)
exception_info invalid_operation = 4
exception_info instruction_load_error = 5
exception_info (data_load_error address write byte_size) =
    bit_or (bit_or 6 (if write then shl 1 3 else 0)) (shl byte_size 4)
exception_info (interrupt value) = bit_or 7 (shl value 3)

abbrev pub exception_address : Exception → ℕ
exception_address (data_load_error address write byte_size) = address
exception_address unknown = 0
exception_address invalid_instruction = 0
exception_address debug = 0
exception_address (user value) = 0
exception_address invalid_operation = 0
exception_address instruction_load_error = 0
exception_address (interrupt value) = 0

abbrev pub table_for :
    PrivilegeLevel → ExceptionConfigurationTable → List ExceptionConfigurationEntry
table_for pl0 table = table.pl0
table_for pl1 table = table.pl1

abbrev pub pl_offset : PrivilegeLevel → ℕ
pl_offset pl0 = 0
pl_offset pl1 = 256

module _ ⦃platform : Platform⦄ where
  -- `ExceptionConfigurationEntry::validate`
  unfoldable pub validate : ExceptionConfigurationEntry → Bool
  validate entry = elim (platform.from_bits entry.flags) [ none ↦ false | some _ ↦ true ]

  -- The stack pointer on entry to the handler; `USE_STACK` is 1.
  unfoldable pub entry_stack_pointer : ExceptionConfigurationEntry → ℕ → ℕ
  entry_stack_pointer entry rsp =
      let stack_base = entry.stack_pointer in
      let stack_top = wrapping_add entry.stack_pointer entry.stack_size in
      if platform.contains entry.flags 1 && (ltb rsp stack_base || ltb stack_top rsp)
      then stack_top
      else rsp

  unfoldable pub take_exception : Exception → Vm → Vm
  unfolding entry_stack_pointer
  take_exception exception vm =
      let level = privilege_level vm.flags in
      let entry = get_or (table_for level vm.ectable) (id exception) default_entry in
      let rsp = register vm sp in
      let vector = wrapping_add vm.evtable_addr (pl_offset level) in
      record (set_register vm sp (entry_stack_pointer entry rsp)) {
        flags = set_privilege_level (set_exceptions_enabled vm.flags false) pl0;
        instruction_pointer = wrapping_add vector (id exception * 32);
        elr = vm.instruction_pointer;
        esp = rsp;
        eflags = vm.flags;
        einfo = exception_info exception;
        eaddr = exception_address exception;
      }

  -- `return self.take_exception(exception)`
  abbrev pub raise : {A : Type 0} → Exception → Vm → Flow A
  raise exception vm = returned (take_exception exception vm)
