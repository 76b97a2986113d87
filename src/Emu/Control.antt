-- ===== src/Emu/Control.antt =====
-- `soc`, `sof`, the jumps, the calls, and the instructions that raise or return from exceptions.
use acca.Prelude.{
  ℕ, bit_and, Bool, true, false, not, ◌&&◌, Option, none, some, ◌==◌, if◌then◌else◌, ◌%◌, ◌^◌,
}
use acca.Word.{wrapping_add, wrapping_sub, wrapping_mul, i64_mul_overflows}
use acca.Emu.Platform.{Platform}
use acca.Emu.Util.Size.{Size}
use acca.Emu.Util.Register.{sp, lr}
use acca.Emu.Util.Flags.{Condition, test_condition, privilege_level, is_pl0}
use acca.Emu.State.{Vm, register, set_register, Flow, ok, panic, ◌>>=◌}
use acca.Emu.Exception.{invalid_instruction, debug, user, invalid_operation, raise}
use acca.Emu.Memory.{set_sized_register}
use acca.Emu.Arithmetic.{compare_registers}

unfoldable pub soc : Size → ℕ → ℕ → ℕ → Condition → Bool → Vm → Flow Vm
soc size dst lhs rhs cond borrow vm =
    let result = if compare_registers size lhs rhs borrow cond vm then 1 else 0 in
    ok (set_sized_register vm dst size result)

unfoldable pub sof : Size → ℕ → Condition → Vm → Flow Vm
sof size dst cond vm =
    let result = if test_condition vm.flags cond then 1 else 0 in
    ok (set_sized_register vm dst size result)

-- `$cond.map(|cond| self.flags.test_condition(cond)).unwrap_or(true)`
unfoldable pub should_jump : Option Condition → Vm → Bool
should_jump none vm = true
should_jump (some cond) vm = test_condition vm.flags cond

module _ ⦃platform : Platform⦄ where
  -- The macro `do_jump!`. The fetch loop adds 4 once the handler is done.
  unfoldable pub do_jump : ℕ → Vm → Flow Vm
  do_jump dest vm =
      if not (bit_and dest 3 == 0)
      then raise invalid_operation vm
      else ok (record vm { instruction_pointer = wrapping_sub dest 4 })

  -- The macros `jump!` and `call!`.
  unfoldable pub jump : ℕ → Option Condition → Vm → Flow Vm
  unfolding do_jump should_jump
  jump addr cond vm = if should_jump cond vm then do_jump addr vm else ok vm

  unfoldable pub call : ℕ → Option Condition → Vm → Flow Vm
  unfolding do_jump should_jump
  call addr cond vm =
      let link_addr = wrapping_add vm.instruction_pointer 4 in
      if should_jump cond vm
      then (do_jump addr vm >>= λ jumped. ok (set_register jumped lr link_addr))
      else ok vm

  -- `rel_base + (((addr as i64) * 4) as u64)`
  unfoldable pub relative_target : ℕ → Vm → Flow ℕ
  relative_target addr vm =
      if platform.overflow_checks && i64_mul_overflows addr 4
      then panic
      else ok (wrapping_add (wrapping_add vm.instruction_pointer 4) (wrapping_mul addr 4))

  unfoldable pub jmpa : Option Condition → ℕ → Vm → Flow Vm
  jmpa cond addr vm = jump (register vm addr) cond vm

  unfoldable pub jmpr_reg : Option Condition → ℕ → Vm → Flow Vm
  jmpr_reg cond addr vm = do target ← relative_target (register vm addr) vm; jump target cond vm

  unfoldable pub jmpr_imm : Option Condition → ℕ → Vm → Flow Vm
  jmpr_imm cond addr vm = do target ← relative_target addr vm; jump target cond vm

  -- The macro `compare_and_jump!`.
  unfoldable pub compare_and_jump : Size → ℕ → ℕ → ℕ → Condition → Vm → Flow Vm
  compare_and_jump size lhs rhs addr cond vm =
      if compare_registers size lhs rhs false cond vm then do_jump addr vm else ok vm

  unfoldable pub cjmpa : Condition → Size → ℕ → ℕ → ℕ → Vm → Flow Vm
  cjmpa cond size addr lhs rhs vm = compare_and_jump size lhs rhs (register vm addr) cond vm

  unfoldable pub cjmpr_reg : Condition → Size → ℕ → ℕ → ℕ → Vm → Flow Vm
  cjmpr_reg cond size addr lhs rhs vm = do
    target ← relative_target (register vm addr) vm
    compare_and_jump size lhs rhs target cond vm

  unfoldable pub cjmpr_imm : Condition → Size → ℕ → ℕ → ℕ → Vm → Flow Vm
  cjmpr_imm cond size addr lhs rhs vm = do
    target ← relative_target addr vm
    compare_and_jump size lhs rhs target cond vm

  unfoldable pub calla : Option Condition → ℕ → Vm → Flow Vm
  calla cond addr vm = call (register vm addr) cond vm

  unfoldable pub callr_reg : Option Condition → ℕ → Vm → Flow Vm
  callr_reg cond addr vm = do target ← relative_target (register vm addr) vm; call target cond vm

  unfoldable pub callr_imm : Option Condition → ℕ → Vm → Flow Vm
  callr_imm cond addr vm = do target ← relative_target addr vm; call target cond vm

  unfoldable pub eret : Vm → Flow Vm
  eret vm =
      if not (is_pl0 (privilege_level vm.flags))
      then raise invalid_operation vm
      else ok (record (set_register vm sp vm.esp) {
        instruction_pointer = wrapping_sub vm.elr 4;
        flags = vm.eflags;
      })

  unfoldable pub udf : Vm → Flow Vm
  udf vm = raise invalid_instruction vm

  unfoldable pub dbg : Vm → Flow Vm
  dbg vm = raise debug vm

  unfoldable pub exc : ℕ → Vm → Flow Vm
  exc val vm =
      raise (user (val % 2 ^ 16))
        (record vm { instruction_pointer = wrapping_add vm.instruction_pointer 4 })

unfoldable pub ret : Vm → Flow Vm
ret vm = ok (record vm { instruction_pointer = wrapping_sub (register vm lr) 4 })
