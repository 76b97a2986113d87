-- ===== src/Emu/State.antt =====
-- The `VM` of acca-emu/src/vm.rs, and the outcome of a handler.
use acca.Prelude.{ℕ, Bool, false, Option, none, some, List, [], replicate}
use acca.Emu.Platform.{Platform}
use acca.Emu.Util.Register.{RegisterFile, new_register_file, index, index_set}
use acca.Emu.Util.Flags.{new_flags}

pub record ExceptionConfigurationEntry : Type 0 where
  pub flags : ℕ
  pub stack_pointer : ℕ
  pub stack_size : ℕ

pub record ExceptionConfigurationTable : Type 0 where
  pub pl0 : List ExceptionConfigurationEntry
  pub pl1 : List ExceptionConfigurationEntry

abbrev pub default_entry : ExceptionConfigurationEntry
default_entry = record { flags = 0; stack_pointer = 0; stack_size = 0 }

abbrev pub default_table : ExceptionConfigurationTable
default_table = record { pl0 = replicate 8 default_entry; pl1 = replicate 8 default_entry }

-- `console` is not a field of the source: it holds what `vm_console` has printed, the last
-- character first.
pub record Vm : Type 0 where
  pub print_instructions : Bool
  pub memory : List ℕ
  pub register_file : RegisterFile
  pub flags : ℕ
  pub instruction_pointer : ℕ
  pub elr : ℕ
  pub esp : ℕ
  pub eflags : ℕ
  pub einfo : ℕ
  pub eaddr : ℕ
  pub evtable_addr : ℕ
  pub ectable_addr : ℕ
  pub ectable : ExceptionConfigurationTable
  pub console : List ℕ

abbrev pub booted : List ℕ → Vm
booted memory = record {
  print_instructions = false;
  memory = memory;
  register_file = new_register_file;
  flags = new_flags;
  instruction_pointer = 0x0400;
  elr = 0;
  esp = 0;
  eflags = new_flags;
  einfo = 0;
  eaddr = 0;
  evtable_addr = 0;
  ectable_addr = 0;
  ectable = default_table;
  console = [];
}

-- `VM::new`
unfoldable pub new : ⦃platform : Platform⦄ → ℕ → Option Vm
new ⦃platform⦄ memory_size = elim (platform.map_anon memory_size) [
  | none ↦ none
  | some memory ↦ some (booted memory)
]

-- `set_print_instructions`
abbrev pub set_print_instructions : Vm → Bool → Vm
set_print_instructions vm print = record vm { print_instructions = print }

abbrev pub register : Vm → ℕ → ℕ
register vm id = index vm.register_file id

abbrev pub set_register : Vm → ℕ → ℕ → Vm
set_register vm id value = record vm { register_file = index_set vm.register_file id value }

-- How a piece of `execute_one` ends: it goes on with a value, it has returned early and left this
-- `VM` behind, or the process has panicked.
pub data Flow (A : Type 0) : Type 0 where
  ok : A → Flow A
  returned : Vm → Flow A
  panic : Flow A

infixl 5 ◌>>=◌
abbrev pub ◌>>=◌ : {A B : Type 0} → Flow A → (A → Flow B) → Flow B
ok a >>= f = f a
returned vm >>= f = returned vm
panic >>= f = panic

-- A conversion that panics on a value it does not know.
abbrev pub expect : {A : Type 0} → Option A → Flow A
expect none = panic
expect (some a) = ok a
