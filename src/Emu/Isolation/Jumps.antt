-- ===== src/Emu/Isolation/Jumps.antt =====
-- The jumps, the calls and the accesses to machine registers are contained.
use mathlib.Core.Path.{subst}
use acca.Prelude.{
  ℕ, ◌≡◌, refl, ◌^◌, ◌%◌, Bool, true, false, Option, inl, inr, Option-cases, Bool-cases,
}
use acca.Emu.Platform.{Platform}
use acca.Emu.Util.Size.{Size}
use acca.Emu.Util.Flags.{Condition, PrivilegeLevel, pl1, privilege_level}
use acca.Emu.Util.MachineRegister.{MachineRegisterId, vm_console, check_access}
use acca.Emu.State.{Vm}
use acca.Emu.Exception.{invalid_instruction, debug, invalid_operation}
use acca.Emu.Control
use acca.Emu.Control.{do_jump, jump, call, relative_target, compare_and_jump}
use acca.Emu.Machine
use acca.Emu.Machine.{machine_register, accessible, set_machine_register}
use acca.Emu.Isolation.System.{
  Ends, ends_ok, ends_returned, ends_panic, Ends-bind, Ends-if, Precise, faulting, requested,
  Contained,
}
use acca.Emu.Isolation.Flags.{system-set_sized_register}

module _ ⦃platform : Platform⦄ where
  do_jump-Contained : (dest : ℕ) (vm : Vm) → Contained vm (do_jump dest vm)
  unfolding do_jump
  do_jump-Contained dest vm = Ends-if _ (ends_returned (faulting invalid_operation)) (ends_ok refl)

  jump-Contained : (addr : ℕ) (cond : Option Condition) (vm : Vm) → Contained vm (jump addr cond vm)
  unfolding jump
  jump-Contained addr cond vm = Ends-if _ (do_jump-Contained addr vm) (ends_ok refl)

  call-Contained : (addr : ℕ) (cond : Option Condition) (vm : Vm) → Contained vm (call addr cond vm)
  unfolding call
  call-Contained addr cond vm =
      Ends-if _ (Ends-bind (do_jump-Contained addr vm) (λ jumped same. ends_ok same)) (ends_ok refl)

  relative_target-Ends :
      {Q : Vm → Type 0} (addr : ℕ) (vm : Vm) → Ends (λ _. Unit {0}) Q (relative_target addr vm)
  unfolding relative_target
  relative_target-Ends addr vm = Ends-if _ ends_panic (ends_ok tt)

  compare_and_jump-Contained :
      (size : Size) (lhs rhs addr : ℕ) (cond : Condition) (vm : Vm)
      → Contained vm (compare_and_jump size lhs rhs addr cond vm)
  unfolding compare_and_jump
  compare_and_jump-Contained size lhs rhs addr cond vm =
      Ends-if _ (do_jump-Contained addr vm) (ends_ok refl)

  pub jmpa-Contained :
      (cond : Option Condition) (addr : ℕ) (vm : Vm) → Contained vm (Control.jmpa cond addr vm)
  unfolding Control.jmpa
  jmpa-Contained cond addr vm = jump-Contained _ cond vm

  pub jmpr_reg-Contained :
      (cond : Option Condition) (addr : ℕ) (vm : Vm) → Contained vm (Control.jmpr_reg cond addr vm)
  unfolding Control.jmpr_reg
  jmpr_reg-Contained cond addr vm =
      Ends-bind (relative_target-Ends _ vm) (λ target _. jump-Contained target cond vm)

  pub jmpr_imm-Contained :
      (cond : Option Condition) (addr : ℕ) (vm : Vm) → Contained vm (Control.jmpr_imm cond addr vm)
  unfolding Control.jmpr_imm
  jmpr_imm-Contained cond addr vm =
      Ends-bind (relative_target-Ends _ vm) (λ target _. jump-Contained target cond vm)

  pub calla-Contained :
      (cond : Option Condition) (addr : ℕ) (vm : Vm) → Contained vm (Control.calla cond addr vm)
  unfolding Control.calla
  calla-Contained cond addr vm = call-Contained _ cond vm

  pub callr_reg-Contained :
      (cond : Option Condition) (addr : ℕ) (vm : Vm) → Contained vm (Control.callr_reg cond addr vm)
  unfolding Control.callr_reg
  callr_reg-Contained cond addr vm =
      Ends-bind (relative_target-Ends _ vm) (λ target _. call-Contained target cond vm)

  pub callr_imm-Contained :
      (cond : Option Condition) (addr : ℕ) (vm : Vm) → Contained vm (Control.callr_imm cond addr vm)
  unfolding Control.callr_imm
  callr_imm-Contained cond addr vm =
      Ends-bind (relative_target-Ends _ vm) (λ target _. call-Contained target cond vm)

  module _ (cond : Condition) (size : Size) (addr lhs rhs : ℕ) (vm : Vm) where
    pub cjmpa-Contained : Contained vm (Control.cjmpa cond size addr lhs rhs vm)
    unfolding Control.cjmpa
    cjmpa-Contained = compare_and_jump-Contained size lhs rhs _ cond vm

    pub cjmpr_reg-Contained : Contained vm (Control.cjmpr_reg cond size addr lhs rhs vm)
    unfolding Control.cjmpr_reg
    cjmpr_reg-Contained =
        Ends-bind (relative_target-Ends _ vm)
          (λ target _. compare_and_jump-Contained size lhs rhs target cond vm)

    pub cjmpr_imm-Contained : Contained vm (Control.cjmpr_imm cond size addr lhs rhs vm)
    unfolding Control.cjmpr_imm
    cjmpr_imm-Contained =
        Ends-bind (relative_target-Ends _ vm)
          (λ target _. compare_and_jump-Contained size lhs rhs target cond vm)

  pub soc-Contained :
      (size : Size) (dst lhs rhs : ℕ) (cond : Condition) (borrow : Bool) (vm : Vm)
      → Contained vm (Control.soc size dst lhs rhs cond borrow vm)
  unfolding Control.soc
  soc-Contained size dst lhs rhs cond borrow vm = ends_ok (system-set_sized_register vm dst size _)

  pub sof-Contained :
      (size : Size) (dst : ℕ) (cond : Condition) (vm : Vm)
      → Contained vm (Control.sof size dst cond vm)
  unfolding Control.sof
  sof-Contained size dst cond vm = ends_ok (system-set_sized_register vm dst size _)

  pub ret-Contained : (vm : Vm) → Contained vm (Control.ret vm)
  unfolding Control.ret
  ret-Contained vm = ends_ok refl

  pub udf-Contained : (vm : Vm) → Contained vm (Control.udf vm)
  unfolding Control.udf
  udf-Contained vm = ends_returned (faulting invalid_instruction)

  pub dbg-Contained : (vm : Vm) → Contained vm (Control.dbg vm)
  unfolding Control.dbg
  dbg-Contained vm = ends_returned (faulting debug)

  pub exc-Contained : (val : ℕ) (vm : Vm) → Contained vm (Control.exc val vm)
  unfolding Control.exc
  exc-Contained val vm = ends_returned (requested (val % 2 ^ 16))

  pub eret-Contained : (vm : Vm) → privilege_level vm.flags ≡ pl1 → Contained vm (Control.eret vm)
  unfolding Control.eret
  eret-Contained vm user = rw user (ends_returned (faulting invalid_operation))

  -- In PL1 only the console may be written.
  Grants : Bool → PrivilegeLevel → MachineRegisterId → Type 0
  Grants write level id = check_access id level write ≡ true

  accessible-Ends :
      (mreg : ℕ) (write : Bool) (vm : Vm)
      → Ends (Grants write (privilege_level vm.flags)) (Precise vm) (accessible mreg write vm)
  unfolding accessible Grants
  accessible-Ends mreg write vm = elim (Option-cases (platform.try_from mreg)) [
    | inl unknown ↦ rw (unknown, accessible) (ends_returned (faulting invalid_operation))
    | inr (id, known) ↦
        rw (known, accessible)
          (elim (Bool-cases (check_access id (privilege_level vm.flags) write)) [
            | inl granted ↦ rw granted (ends_ok granted)
            | inr denied ↦ rw denied (ends_returned (faulting invalid_operation))
          ])
  ]

  machine_register-Ends :
      {Q : Vm → Type 0} (id : MachineRegisterId) (vm : Vm)
      → Ends (λ _. Unit {0}) Q (machine_register id vm)
  unfolding machine_register
  machine_register-Ends vm_console vm = ends_panic
  machine_register-Ends _ vm = ends_ok tt

  pub ldm-Contained : (dst src_mreg : ℕ) (vm : Vm) → Contained vm (Machine.ldm dst src_mreg vm)
  unfolding Machine.ldm
  ldm-Contained dst src_mreg vm =
      Ends-bind (accessible-Ends _ false vm)
        (λ id _. Ends-bind (machine_register-Ends id vm) (λ value _. ends_ok refl))

  set_machine_register-Contained :
      (id : MachineRegisterId) (src : ℕ) (vm : Vm)
      → Grants true pl1 id
      → Contained vm (set_machine_register id src vm)
  unfolding set_machine_register check_access Grants
  set_machine_register-Contained vm_console src vm granted = ends_ok refl
  set_machine_register-Contained _ src vm granted = cc

  pub stm-Contained :
      (dst_mreg src : ℕ) (vm : Vm)
      → privilege_level vm.flags ≡ pl1
      → Contained vm (Machine.stm dst_mreg src vm)
  unfolding Machine.stm
  stm-Contained dst_mreg src vm user = Ends-bind (accessible-Ends _ true vm) (λ id granted.
      set_machine_register-Contained id _ vm (subst (λ level. Grants true level id) user granted))
