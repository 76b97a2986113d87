-- ===== src/Emu/Execute.antt =====
-- `execute_one` and `run` of acca-emu/src/vm.rs.
pub mod Handlers
use acca.Prelude.{ℕ, zero, suc, Option, none, some}
use acca.Word.{wrapping_add, from_le_bytes}
use acca.Emu.Platform.{Platform}
use acca.Emu.State.{Vm, Flow, ok, returned, panic, ◌>>=◌, expect}
use acca.Emu.Exception.{invalid_instruction, instruction_load_error, take_exception, raise}
use acca.Emu.Memory
use acca.Emu.Memory.{get_slice}
use acca.Emu.Arithmetic
use acca.Emu.Logic
use acca.Emu.Control
use acca.Emu.Machine
use acca.Emu.Instruction.Encodings.{Opcode}
use acca.Emu.Instruction.Syntax.{Instruction}
use acca.Emu.Instruction.Select.{select, decode}

module _ ⦃platform : Platform⦄ where
  -- The bodies of the match arms.
  unfoldable pub execute : Instruction → Vm → Flow Vm
  execute (Instruction.pushs size src) vm = Memory.pushs size src vm
  execute (Instruction.pushp size src1 src2) vm = Memory.pushp size src1 src2 vm
  execute (Instruction.pops size dst) vm = Memory.pops size dst vm
  execute (Instruction.popp size dst1 dst2) vm = Memory.popp size dst1 dst2 vm
  execute (Instruction.lds size dst src_addr) vm = Memory.lds size dst src_addr vm
  execute (Instruction.ldp size dst1 dst2 src_addr) vm = Memory.ldp size dst1 dst2 src_addr vm
  execute (Instruction.sts size dst_addr src) vm = Memory.sts size dst_addr src vm
  execute (Instruction.stp size dst_addr src1 src2) vm = Memory.stp size dst_addr src1 src2 vm
  execute (Instruction.ldi dst src shift clear) vm = Memory.ldi dst src shift clear vm
  execute (Instruction.ldr dst src) vm = Memory.ldr dst src vm
  execute (Instruction.copy size dst src) vm = Memory.copy size dst src vm
  execute (Instruction.add_reg size dst lhs rhs carry set_flags) vm =
      Arithmetic.add_reg size dst lhs rhs carry set_flags vm
  execute (Instruction.add_imm size dst lhs rhs shift_factor sign_extend carry set_flags) vm =
      Arithmetic.add_imm size dst lhs rhs shift_factor sign_extend carry set_flags vm
  execute (Instruction.sub_reg size dst lhs rhs borrow set_flags) vm =
      Arithmetic.sub_reg size dst lhs rhs borrow set_flags vm
  execute (Instruction.sub_imm size dst lhs rhs shift_factor sign_extend borrow set_flags) vm =
      Arithmetic.sub_imm size dst lhs rhs shift_factor sign_extend borrow set_flags vm
  execute (Instruction.mul src_size dst_size dst lhs rhs signed set_flags) vm =
      Arithmetic.mul src_size dst_size dst lhs rhs signed set_flags vm
  execute (Instruction.div size quot rem lhs rhs signed set_flags) vm =
      Arithmetic.div size quot rem lhs rhs signed set_flags vm
  execute (Instruction.and_reg size dst lhs rhs set_flags) vm =
      Logic.and_reg size dst lhs rhs set_flags vm
  execute (Instruction.and_imm size dst lhs rhs shift_factor sign_extend set_flags) vm =
      Logic.and_imm size dst lhs rhs shift_factor sign_extend set_flags vm
  execute (Instruction.or_reg size dst lhs rhs set_flags) vm =
      Logic.or_reg size dst lhs rhs set_flags vm
  execute (Instruction.or_imm size dst lhs rhs shift_factor sign_extend set_flags) vm =
      Logic.or_imm size dst lhs rhs shift_factor sign_extend set_flags vm
  execute (Instruction.xor_reg size dst lhs rhs set_flags) vm =
      Logic.xor_reg size dst lhs rhs set_flags vm
  execute (Instruction.xor_imm size dst lhs rhs shift_factor sign_extend set_flags) vm =
      Logic.xor_imm size dst lhs rhs shift_factor sign_extend set_flags vm
  execute (Instruction.shl_reg size dst lhs rhs set_flags) vm =
      Logic.shl_reg size dst lhs rhs set_flags vm
  execute (Instruction.shl_imm size dst lhs rhs set_flags) vm =
      Logic.shl_imm size dst lhs rhs set_flags vm
  execute (Instruction.shr_reg size dst lhs rhs signed set_flags) vm =
      Logic.shr_reg size dst lhs rhs signed set_flags vm
  execute (Instruction.shr_imm size dst lhs rhs signed set_flags) vm =
      Logic.shr_imm size dst lhs rhs signed set_flags vm
  execute (Instruction.rot_reg size dst lhs rhs set_flags) vm =
      Logic.rot_reg size dst lhs rhs set_flags vm
  execute (Instruction.rot_imm size dst lhs rhs set_flags) vm =
      Logic.rot_imm size dst lhs rhs set_flags vm
  execute (Instruction.neg size dst src set_flags) vm = Arithmetic.neg size dst src set_flags vm
  execute (Instruction.bswap size dst src set_flags) vm = Logic.bswap size dst src set_flags vm
  execute (Instruction.soc size dst lhs rhs cond borrow) vm =
      Control.soc size dst lhs rhs cond borrow vm
  execute (Instruction.sof size dst cond) vm = Control.sof size dst cond vm
  execute (Instruction.jmpa cond addr) vm = Control.jmpa cond addr vm
  execute (Instruction.jmpr_reg cond addr) vm = Control.jmpr_reg cond addr vm
  execute (Instruction.jmpr_imm cond addr) vm = Control.jmpr_imm cond addr vm
  execute (Instruction.cjmpa cond size addr lhs rhs) vm = Control.cjmpa cond size addr lhs rhs vm
  execute (Instruction.cjmpr_reg cond size addr lhs rhs) vm =
      Control.cjmpr_reg cond size addr lhs rhs vm
  execute (Instruction.cjmpr_imm cond size addr lhs rhs) vm =
      Control.cjmpr_imm cond size addr lhs rhs vm
  execute (Instruction.calla cond addr) vm = Control.calla cond addr vm
  execute (Instruction.callr_reg cond addr) vm = Control.callr_reg cond addr vm
  execute (Instruction.callr_imm cond addr) vm = Control.callr_imm cond addr vm
  execute Instruction.ret vm = Control.ret vm
  execute Instruction.eret vm = Control.eret vm
  execute Instruction.udf vm = Control.udf vm
  execute Instruction.dbg vm = Control.dbg vm
  execute (Instruction.exc val) vm = Control.exc val vm
  execute Instruction.nop vm = ok vm
  execute (Instruction.ldm dst src_mreg) vm = Machine.ldm dst src_mreg vm
  execute (Instruction.stm dst_mreg src) vm = Machine.stm dst_mreg src vm

  -- The default arm takes the exception and, unlike the others, does not return.
  unfoldable pub execute_selected : Option Opcode → ℕ → Vm → Flow Vm
  execute_selected none encoded vm = ok (take_exception invalid_instruction vm)
  execute_selected (some op) encoded vm = do
    instruction ← expect (decode op encoded)
    execute instruction vm

  unfoldable pub fetch : Vm → Flow ℕ
  fetch vm =
      let start = vm.instruction_pointer in
      elim (get_slice vm.memory start (wrapping_add start 4)) [
        | none ↦ raise instruction_load_error vm
        | some bytes ↦ ok (from_le_bytes bytes)
      ]

  -- The end of `execute_one`: 4 is added to the instruction pointer, unless the body has
  -- returned. `none` is a panic of the process.
  unfoldable pub finish : Flow Vm → Option Vm
  finish (ok vm) = some (record vm { instruction_pointer = wrapping_add vm.instruction_pointer 4 })
  finish (returned vm) = some vm
  finish panic = none

  unfoldable pub execute_body : Vm → Flow Vm
  execute_body vm = do encoded ← fetch vm; execute_selected (select encoded) encoded vm

  unfoldable pub execute_one : Vm → Option Vm
  unfolding finish execute_body
  execute_one vm = finish (execute_body vm)

  -- `n` rounds of the endless loop of `run`.
  unfoldable pub run : ℕ → Vm → Option Vm
  run zero vm = some vm
  run (suc n) vm = elim (execute_one vm) [ none ↦ none | some vm' ↦ run n vm' ]
