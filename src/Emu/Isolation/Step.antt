-- ===== src/Emu/Isolation/Step.antt =====
-- Every instruction is contained in PL1, and so is `execute_one`.
use mathlib.Core.Path.{subst}
use mathlib.Core.Option.{some-injective}
use acca.Word.{wrapping_add}
use acca.Emu.Memory.{get_slice}
use acca.Emu.Instruction.Encodings.{Opcode}
use acca.Emu.Instruction.Select.{select, decode}
use acca.Prelude.{ℕ, ◌≡◌, refl, ◌∙◌, ap, sym, Option-cases, Option, none, some, ◌⊎◌, inl, inr}
use acca.Emu.Platform.{Platform}
use acca.Emu.Util.Flags.{pl1, privilege_level}
use acca.Emu.State.{Vm, Flow, ok, returned, panic, expect}
use acca.Emu.Exception.{invalid_instruction, instruction_load_error, take_exception}
use acca.Emu.Instruction.Syntax.{Instruction}
use acca.Emu.Execute.{execute, execute_selected, execute_one, finish, fetch}
use acca.Emu.Isolation.System.{
  system, Ends, ends_ok, ends_returned, ends_panic, Ends-bind, Precise, faulting, Contained,
  advanced,
}
use acca.Emu.Isolation.Data
use acca.Emu.Isolation.Values
use acca.Emu.Isolation.Jumps

module _ ⦃platform : Platform⦄ where
  execute-Contained :
      (instruction : Instruction) (vm : Vm)
      → privilege_level vm.flags ≡ pl1
      → Contained vm (execute instruction vm)
  unfolding execute
  execute-Contained (Instruction.pushs size src) vm user = Data.pushs-Contained size src vm
  execute-Contained (Instruction.pushp size src1 src2) vm user =
      Data.pushp-Contained size src1 src2 vm
  execute-Contained (Instruction.pops size dst) vm user = Data.pops-Contained size dst vm
  execute-Contained (Instruction.popp size dst1 dst2) vm user =
      Data.popp-Contained size dst1 dst2 vm
  execute-Contained (Instruction.lds size dst src_addr) vm user =
      Data.lds-Contained size dst src_addr vm
  execute-Contained (Instruction.ldp size dst1 dst2 src_addr) vm user =
      Data.ldp-Contained size dst1 dst2 src_addr vm
  execute-Contained (Instruction.sts size dst_addr src) vm user =
      Data.sts-Contained size dst_addr src vm
  execute-Contained (Instruction.stp size dst_addr src1 src2) vm user =
      Data.stp-Contained size dst_addr src1 src2 vm
  execute-Contained (Instruction.ldi dst src shift clear) vm user =
      Data.ldi-Contained dst src shift clear vm
  execute-Contained (Instruction.ldr dst src) vm user = Data.ldr-Contained dst src vm
  execute-Contained (Instruction.copy size dst src) vm user = Data.copy-Contained size dst src vm
  execute-Contained (Instruction.add_reg size dst lhs rhs carry set_flags) vm user =
      Values.add_reg-Contained size dst lhs rhs carry set_flags vm
  execute-Contained (Instruction.add_imm size dst lhs rhs shift_factor sign_extend carry set_flags)
        vm user =
      Values.add_imm-Contained size dst lhs rhs shift_factor sign_extend carry set_flags vm
  execute-Contained (Instruction.sub_reg size dst lhs rhs borrow set_flags) vm user =
      Values.sub_reg-Contained size dst lhs rhs borrow set_flags vm
  execute-Contained (Instruction.sub_imm size dst lhs rhs shift_factor sign_extend borrow set_flags)
        vm user =
      Values.sub_imm-Contained size dst lhs rhs shift_factor sign_extend borrow set_flags vm
  execute-Contained (Instruction.mul src_size dst_size dst lhs rhs signed set_flags) vm user =
      Values.mul-Contained src_size dst_size dst lhs rhs signed set_flags vm
  execute-Contained (Instruction.div size quot rem lhs rhs signed set_flags) vm user =
      Values.div-Contained size quot rem lhs rhs signed set_flags vm
  execute-Contained (Instruction.and_reg size dst lhs rhs set_flags) vm user =
      Values.and_reg-Contained size dst lhs rhs set_flags vm
  execute-Contained (Instruction.and_imm size dst lhs rhs shift_factor sign_extend set_flags) vm
        user =
      Values.and_imm-Contained size dst lhs rhs shift_factor sign_extend set_flags vm
  execute-Contained (Instruction.or_reg size dst lhs rhs set_flags) vm user =
      Values.or_reg-Contained size dst lhs rhs set_flags vm
  execute-Contained (Instruction.or_imm size dst lhs rhs shift_factor sign_extend set_flags) vm
        user =
      Values.or_imm-Contained size dst lhs rhs shift_factor sign_extend set_flags vm
  execute-Contained (Instruction.xor_reg size dst lhs rhs set_flags) vm user =
      Values.xor_reg-Contained size dst lhs rhs set_flags vm
  execute-Contained (Instruction.xor_imm size dst lhs rhs shift_factor sign_extend set_flags) vm
        user =
      Values.xor_imm-Contained size dst lhs rhs shift_factor sign_extend set_flags vm
  execute-Contained (Instruction.shl_reg size dst lhs rhs set_flags) vm user =
      Values.shl_reg-Contained size dst lhs rhs set_flags vm
  execute-Contained (Instruction.shl_imm size dst lhs rhs set_flags) vm user =
      Values.shl_imm-Contained size dst lhs rhs set_flags vm
  execute-Contained (Instruction.shr_reg size dst lhs rhs signed set_flags) vm user =
      Values.shr_reg-Contained size dst lhs rhs signed set_flags vm
  execute-Contained (Instruction.shr_imm size dst lhs rhs signed set_flags) vm user =
      Values.shr_imm-Contained size dst lhs rhs signed set_flags vm
  execute-Contained (Instruction.rot_reg size dst lhs rhs set_flags) vm user =
      Values.rot_reg-Contained size dst lhs rhs set_flags vm
  execute-Contained (Instruction.rot_imm size dst lhs rhs set_flags) vm user =
      Values.rot_imm-Contained size dst lhs rhs set_flags vm
  execute-Contained (Instruction.neg size dst src set_flags) vm user =
      Values.neg-Contained size dst src set_flags vm
  execute-Contained (Instruction.bswap size dst src set_flags) vm user =
      Values.bswap-Contained size dst src set_flags vm
  execute-Contained (Instruction.soc size dst lhs rhs cond borrow) vm user =
      Jumps.soc-Contained size dst lhs rhs cond borrow vm
  execute-Contained (Instruction.sof size dst cond) vm user = Jumps.sof-Contained size dst cond vm
  execute-Contained (Instruction.jmpa cond addr) vm user = Jumps.jmpa-Contained cond addr vm
  execute-Contained (Instruction.jmpr_reg cond addr) vm user = Jumps.jmpr_reg-Contained cond addr vm
  execute-Contained (Instruction.jmpr_imm cond addr) vm user = Jumps.jmpr_imm-Contained cond addr vm
  execute-Contained (Instruction.cjmpa cond size addr lhs rhs) vm user =
      Jumps.cjmpa-Contained cond size addr lhs rhs vm
  execute-Contained (Instruction.cjmpr_reg cond size addr lhs rhs) vm user =
      Jumps.cjmpr_reg-Contained cond size addr lhs rhs vm
  execute-Contained (Instruction.cjmpr_imm cond size addr lhs rhs) vm user =
      Jumps.cjmpr_imm-Contained cond size addr lhs rhs vm
  execute-Contained (Instruction.calla cond addr) vm user = Jumps.calla-Contained cond addr vm
  execute-Contained (Instruction.callr_reg cond addr) vm user =
      Jumps.callr_reg-Contained cond addr vm
  execute-Contained (Instruction.callr_imm cond addr) vm user =
      Jumps.callr_imm-Contained cond addr vm
  execute-Contained Instruction.ret vm user = Jumps.ret-Contained vm
  execute-Contained Instruction.eret vm user = Jumps.eret-Contained vm user
  execute-Contained Instruction.udf vm user = Jumps.udf-Contained vm
  execute-Contained Instruction.dbg vm user = Jumps.dbg-Contained vm
  execute-Contained (Instruction.exc val) vm user = Jumps.exc-Contained val vm
  execute-Contained (Instruction.ldm dst src_mreg) vm user = Jumps.ldm-Contained dst src_mreg vm
  execute-Contained (Instruction.stm dst_mreg src) vm user =
      Jumps.stm-Contained dst_mreg src vm user
  execute-Contained Instruction.nop vm user = ends_ok refl

  -- A step that enters an exception handler. At a word that is no instruction the handler's
  -- address has already been passed by 4.
  pub data Traps (vm : Vm) : Vm → Type 0 where
    precise : {vm' : Vm} → Precise vm vm' → Traps vm vm'
    undecoded : Traps vm (advanced (take_exception invalid_instruction vm))

  -- What the body of `execute_one` hands on.
  Passes : Vm → Vm → Type 0
  Passes vm vm' = (system vm' ≡ system vm) ⊎ (vm' ≡ take_exception invalid_instruction vm)

  fetch-Ends : (vm : Vm) → Ends (λ _. Unit {0}) (Precise vm) (fetch vm)
  unfolding fetch
  fetch-Ends vm =
      elim (Option-cases
        (get_slice vm.memory vm.instruction_pointer (wrapping_add vm.instruction_pointer 4))) [
          | inl missing ↦ rw (missing, fetch) (ends_returned (faulting instruction_load_error))
          | inr (bytes, found) ↦ rw (found, fetch) (ends_ok tt)
        ]

  expect-Ends : {A : Type 0} {Q : Vm → Type 0} (o : Option A) → Ends (λ _. Unit {0}) Q (expect o)
  expect-Ends none = ends_panic
  expect-Ends (some a) = ends_ok tt

  execute_selected-Ends :
      (found : Option Opcode) (encoded : ℕ) (vm : Vm)
      → privilege_level vm.flags ≡ pl1
      → Ends (Passes vm) (Precise vm) (execute_selected found encoded vm)
  unfolding execute_selected Passes
  execute_selected-Ends none encoded vm user = ends_ok (inr refl)
  execute_selected-Ends (some op) encoded vm user =
      Ends-bind (expect-Ends (decode op encoded))
        (λ instruction _. Ends-bind' (execute-Contained instruction vm user))
    where
      Ends-bind' : {flow : Flow Vm} → Contained vm flow → Ends (Passes vm) (Precise vm) flow
      Ends-bind' (ends_ok same) = ends_ok (inl same)
      Ends-bind' (ends_returned trap) = ends_returned trap
      Ends-bind' ends_panic = ends_panic

  finish-Ends :
      (vm : Vm) {vm' : Vm} (flow : Flow Vm)
      → Ends (Passes vm) (Precise vm) flow
      → finish flow ≡ some vm'
      → (system vm' ≡ system vm) ⊎ Traps vm vm'
  unfolding finish Passes
  finish-Ends vm (ok vm₁) (ends_ok (inl same)) e =
      inl (subst (λ v. system v ≡ system vm) (some-injective _ _ e) same)
  finish-Ends vm (ok vm₁) (ends_ok (inr trap)) e =
      inr (
        subst (Traps vm) (some-injective _ _ (ap (λ v. some (advanced v)) (sym trap) ∙ e))
          undecoded)
  finish-Ends vm (returned vm₁) (ends_returned trap) e =
      inr (subst (Traps vm) (some-injective _ _ e) (precise trap))
  finish-Ends vm panic ends_panic e = cc

  -- A program in PL1 cannot touch the system part: after any step of the emulator the exception
  -- registers, the tables, the privilege level and the mask of exceptions are as before, unless
  -- the step has entered an exception handler, from the state before the instruction.
  pub execute_one-isolated :
      (vm : Vm) {vm' : Vm}
      → privilege_level vm.flags ≡ pl1
      → execute_one vm ≡ some vm'
      → (system vm' ≡ system vm) ⊎ Traps vm vm'
  unfolding execute_one
  execute_one-isolated vm user e =
      finish-Ends vm _
        (Ends-bind (fetch-Ends vm)
          (λ encoded _. execute_selected-Ends (select encoded) encoded vm user))
        e
