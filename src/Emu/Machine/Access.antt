-- ===== src/Emu/Machine/Access.antt =====
-- The `unreachable!` arms of `ldm` and `stm`.
use acca.Prelude.{
  ℕ, ◌%◌, ◌^◌, ◌≡◌, ◌≢◌, refl, Bool, true, false, not, inl, inr, if◌then◌else◌, Option-cases, all,
  ◌&&◌,
}
use acca.Emu.Platform.{Platform}
use acca.Emu.Util.Flags.{PrivilegeLevel, privilege_level, flags_try_from}
use acca.Emu.Util.MachineRegister.{
  MachineRegisterId, flags, elr, esp, eflags, einfo, eaddr, evtable, ectable, vm_console,
  check_access,
}
use acca.Emu.State.{Vm, register, Flow, ok, returned, panic, ◌>>=◌, ExceptionConfigurationTable}
use acca.Emu.Exception.{raise, invalid_operation, validate}
use acca.Emu.Memory.Access.{get_memory-cases}
use acca.Emu.Machine

-- A flow that does not panic, and whose value, if it goes on, satisfies `P`.
data Safe {A : Type 0} (P : A → Type 0) : Flow A → Type 0 where
  safe_ok : {a : A} → P a → Safe P (ok a)
  safe_returned : {vm : Vm} → Safe P (returned vm)

Safe-bind :
    {A B : Type 0} {P : A → Type 0} {Q : B → Type 0} {m : Flow A} {f : A → Flow B}
    → Safe P m
    → ((a : A) → P a → Safe Q (f a))
    → Safe Q (m >>= f)
Safe-bind (safe_ok p) k = k _ p
Safe-bind safe_returned k = safe_returned

Safe-no-panic : {A : Type 0} {P : A → Type 0} {m : Flow A} → Safe P m → m ≢ panic
Safe-no-panic (safe_ok p) h = cc
Safe-no-panic safe_returned h = cc

Safe-if :
    {A : Type 0} {P : A → Type 0} (b : Bool) {x y : Flow A}
    → (b ≡ true → Safe P x)
    → Safe P y
    → Safe P (if b then x else y)
Safe-if true x y = x refl
Safe-if false x y = y

module _ ⦃platform : Platform⦄ where
  accessible-Safe :
      (mreg : ℕ) (write : Bool) (vm : Vm)
      → Safe
          (λ id. check_access id (privilege_level vm.flags) write ≡ true)
          (Machine.accessible mreg write vm)
  unfolding Machine.accessible
  accessible-Safe mreg write vm = elim (Option-cases (platform.try_from mreg)) [
    | inl missing ↦ rw (missing, Machine.accessible) safe_returned
    | inr (id, found) ↦
        rw (found, Machine.accessible)
          (granted id (check_access id (privilege_level vm.flags) write) refl)
  ]
    where
      granted :
          (id : MachineRegisterId) (b : Bool)
          → check_access id (privilege_level vm.flags) write ≡ b
          → Safe
              (λ id. check_access id (privilege_level vm.flags) write ≡ true)
              (if not b then raise invalid_operation vm else ok id)
      granted id true e = safe_ok e
      granted id false e = safe_returned

  readable :
      (id : MachineRegisterId) (level : PrivilegeLevel) (vm : Vm)
      → check_access id level false ≡ true
      → Safe (λ _. Unit {0}) (Machine.machine_register id vm)
  unfolding Machine.machine_register check_access
  readable flags level vm h = safe_ok tt
  readable elr level vm h = safe_ok tt
  readable esp level vm h = safe_ok tt
  readable eflags level vm h = safe_ok tt
  readable einfo level vm h = safe_ok tt
  readable eaddr level vm h = safe_ok tt
  readable evtable level vm h = safe_ok tt
  readable ectable level vm h = safe_ok tt
  readable vm_console level vm h = cc

  -- `ldm` never reaches its `unreachable!`, whatever the machine register, the privilege level
  -- and the state.
  pub ldm-total : (dst src_mreg : ℕ) (vm : Vm) → Machine.ldm dst src_mreg vm ≢ panic
  unfolding Machine.ldm
  ldm-total dst src_mreg vm = Safe-no-panic (
      Safe-bind {Q = λ _. Unit {0}} (accessible-Safe (src_mreg % 2 ^ 32) false vm)
        (λ id granted. Safe-bind (readable id _ vm granted) (λ val _. safe_ok tt)))

  as_flags-Safe : (src : ℕ) (vm : Vm) → Safe (λ _. Unit {0}) (Machine.as_flags src vm)
  unfolding Machine.as_flags
  as_flags-Safe src vm = elim (Option-cases (flags_try_from src)) [
    | inl missing ↦ rw (missing, Machine.as_flags) safe_returned
    | inr (value, found) ↦ rw (found, Machine.as_flags) (safe_ok tt)
  ]

  as_vector-Safe : (src : ℕ) (vm : Vm) → Safe (λ _. Unit {0}) (Machine.as_vector src vm)
  unfolding Machine.as_vector
  as_vector-Safe src vm =
      Safe-if (Machine.is_valid_instruction_pointer src) (λ _. safe_ok tt) safe_returned

  install_table-Safe :
      (src : ℕ) (table : ExceptionConfigurationTable) (vm : Vm)
      → Safe (λ _. Unit {0}) (Machine.install_table src table vm)
  unfolding Machine.install_table
  install_table-Safe src table vm =
      Safe-if (all validate table.pl0 && all validate table.pl1) (λ _. safe_ok tt) safe_returned

  load_ectable-Safe : (src : ℕ) (vm : Vm) → Safe (λ _. Unit {0}) (Machine.load_ectable src vm)
  unfolding Machine.load_ectable
  load_ectable-Safe src vm = elim (get_memory-cases false src 384 vm) [
    | inl missing ↦ rw (Machine.load_ectable, missing) safe_returned
    | inr (bytes, got, found) ↦
        rw (Machine.load_ectable, got) (install_table-Safe src (Machine.read_table bytes) vm)
  ]

  writable :
      (id : MachineRegisterId) (src : ℕ) (vm : Vm)
      → check_access id (privilege_level vm.flags) true ≡ true
      → Safe (λ _. Unit {0}) (Machine.set_machine_register id src vm)
  unfolding Machine.set_machine_register check_access
  writable flags src vm h = Safe-bind (as_flags-Safe src vm) (λ _ _. safe_ok tt)
  writable elr src vm h = Safe-bind (as_vector-Safe src vm) (λ _ _. safe_ok tt)
  writable esp src vm h = safe_ok tt
  writable eflags src vm h = Safe-bind (as_flags-Safe src vm) (λ _ _. safe_ok tt)
  writable einfo src vm h = cc
  writable eaddr src vm h = cc
  writable evtable src vm h = Safe-bind (as_vector-Safe src vm) (λ _ _. safe_ok tt)
  writable ectable src vm h = load_ectable-Safe src vm
  writable vm_console src vm h = safe_ok tt

  -- `stm` never reaches its `unreachable!`s.
  pub stm-total : (dst_mreg src : ℕ) (vm : Vm) → Machine.stm dst_mreg src vm ≢ panic
  unfolding Machine.stm
  stm-total dst_mreg src vm = Safe-no-panic (
      Safe-bind {Q = λ _. Unit {0}} (accessible-Safe (dst_mreg % 2 ^ 32) true vm)
        (λ id granted. writable id (register vm src) vm granted))
