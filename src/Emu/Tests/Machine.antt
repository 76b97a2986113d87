-- ===== src/Emu/Tests/Machine.antt =====
-- The emulator on concrete states.
use acca.Emu.Isolation.Run.{Trapped, run-isolated}
use acca.Prelude.{
  ◌≡◌, ◌≢◌, refl, arith, true, false, none, some, [], ◌∷◌, ◌⊎◌, All, replicate, ◌++◌,
}
use acca.Word.{IsWord}
use acca.Emu.Util.Size.{quad_byte, word, write}
use acca.Emu.Util.Register.{sp, register_from, get_unsigned}
use acca.Emu.Util.Flags.{privilege_level, exceptions_enabled, pl0}
use acca.Emu.Util.Bit.{bit_as_bool, sign_extend_immediate, zero_extend_immediate}
use acca.Emu.Util.MachineRegister.{check_access}
use acca.Encoding.Scan.{matches, required_mask, required_mask_value, gather, variable_value}
use acca.Emu.Instruction.Encodings.{encoding}
use acca.Emu.Instruction.Operands.{operands}
use acca.Emu.State.{Vm, ok, panic, register, set_register}
use acca.Emu.Exception.{
  user, invalid_operation, invalid_instruction, data_load_error, take_exception, raise, id,
}
use acca.Emu.Memory.{get_slice, pushs, pops, stp, source_value, get_memory, set_slice}
use acca.Emu.Machine.{ldm, stm, accessible}
use acca.Emu.Control.{eret, udf}
use acca.Emu.Execute.{execute_one, execute_selected, execute, fetch, finish, run}
use acca.Emu.Instruction.Select.{select, first_match, decode}
use acca.Emu.Isolation.System.{system, advanced}
use acca.Emu.Isolation.Step.{execute_one-isolated, Traps}
use acca.Emu.Execute.Handlers.{
  take_exception-flags, eret-take_exception, take_exception-apart, execute_one-undecodable,
}
use acca.Emu.Machine.Access.{ldm-total, stm-total}
use acca.Emu.Memory.Access.{stp-fails}
use acca.Emu.Memory.Stack.{pops-sp, pops-pushs}
use acca.Emu.Tests.Concrete.{concrete, concrete-IsDocumented, user_vm}

-- `stm elr, r0` from PL1.
abbrev stm_vm : Vm
stm_vm = user_vm (1 ∷ 0 ∷ 0 ∷ 20 ∷ [])

execute_one-stm_vm : execute_one stm_vm ≡ some (take_exception invalid_operation stm_vm)
unfolding execute_one fetch get_slice select execute_selected first_match matches required_mask
    required_mask_value encoding decode operands variable_value gather execute stm accessible
    check_access bit_as_bool register_from sign_extend_immediate
execute_one-stm_vm = refl

-- `nop`, and then `stm elr, r0`.
abbrev nop_vm : Vm
nop_vm = user_vm (0 ∷ 0 ∷ 0 ∷ 4 ∷ 1 ∷ 0 ∷ 0 ∷ 20 ∷ [])

run-nop_vm : run 2 nop_vm ≡ some (take_exception invalid_operation (advanced nop_vm))
unfolding run execute_one fetch get_slice select execute_selected first_match matches required_mask
    required_mask_value encoding decode operands variable_value gather execute stm accessible
    check_access bit_as_bool register_from sign_extend_immediate
run-nop_vm = refl

-- A word that is no instruction.
abbrev unknown_vm : Vm
unknown_vm = user_vm (1 ∷ 0 ∷ 0 ∷ 8 ∷ [])

fetch-unknown_vm : fetch unknown_vm ≡ ok 0x08000001
unfolding fetch get_slice
fetch-unknown_vm = refl

select-unknown_vm : select 0x08000001 ≡ none
unfolding select first_match matches required_mask required_mask_value encoding
select-unknown_vm = refl

udf-unknown_vm : finish (udf unknown_vm) ≡ some (take_exception invalid_instruction unknown_vm)
unfolding finish udf
udf-unknown_vm = refl

-- A state whose stack holds sixteen bytes.
abbrev stack_vm : Vm
stack_vm = user_vm (replicate 16 9)

abbrev pushed_vm : Vm
pushed_vm = record (set_register stack_vm sp 8) {
  memory = replicate 8 9 ++ 0x34 ∷ 0x12 ∷ 0 ∷ 0 ∷ replicate 4 9;
}

pushs-stack_vm : pushs quad_byte (some 1) stack_vm ≡ ok pushed_vm
unfolding pushs get_memory get_slice set_slice source_value get_unsigned zero_extend_immediate write
pushs-stack_vm = refl

words_small : All IsWord stack_vm.register_file
words_small = (
  omega arith,
  (
    omega arith,
    (
      omega arith,
      (
        omega arith,
        (
          omega arith,
          (
            omega arith,
            (
              omega arith,
              (
                omega arith,
                (
                  omega arith,
                  (
                    omega arith,
                    (
                      omega arith,
                      (omega arith, (omega arith, (omega arith, (omega arith, (omega arith, tt))))),
                    ),
                  ),
                ),
              ),
            ),
          ),
        ),
      ),
    ),
  ),
)

execute_one-isolated_example :
    (system (take_exception invalid_operation stm_vm) ≡ system stm_vm)
    ⊎ Traps stm_vm (take_exception invalid_operation stm_vm)
unfolding bit_as_bool
execute_one-isolated_example = execute_one-isolated stm_vm refl execute_one-stm_vm

take_exception-flags_example :
    let flags = (take_exception (user 5) stm_vm).flags in
    (privilege_level flags ≡ pl0)
    × (exceptions_enabled flags ≡ false)
    × (bit_as_bool flags 1 ≡ bit_as_bool 0b110011 1)
take_exception-flags_example = take_exception-flags (user 5) stm_vm 1 (omega arith)

eret-take_exception_example :
    (vm' : Vm) × (finish (eret (take_exception (user 5) stm_vm)) ≡ some vm')
    × (vm'.instruction_pointer ≡ 0)
    × (vm'.flags ≡ 0b110011)
    × (vm'.register_file ≡ stm_vm.register_file)
    × (vm'.memory ≡ stm_vm.memory)
eret-take_exception_example = eret-take_exception (user 5) stm_vm (omega arith)

take_exception-apart_example :
    (id (user 5) ≡ id (user 6)) × (privilege_level stm_vm.flags ≡ privilege_level stack_vm.flags)
unfolding take_exception bit_as_bool
take_exception-apart_example =
    take_exception-apart (user 5) (user 6) stm_vm stack_vm refl (omega arith) (omega arith)
      (omega arith)

execute_one-undecodable_example :
    execute_one unknown_vm ≡ some (advanced (take_exception invalid_instruction unknown_vm))
execute_one-undecodable_example =
    execute_one-undecodable unknown_vm 0x08000001 (take_exception invalid_instruction unknown_vm)
      fetch-unknown_vm select-unknown_vm udf-unknown_vm

stm-total_example : stm 5 0 stm_vm ≢ panic
stm-total_example = stm-total 5 0 stm_vm

ldm-total_example : ldm 0 0xdead1 stm_vm ≢ panic
ldm-total_example = ldm-total 0 0xdead1 stm_vm

stp-fails_example :
    (stp word 0 1 2 stack_vm ≡ panic)
    ⊎ (stp word 0 1 2 stack_vm ≡ raise (data_load_error 7 true 8) stack_vm)
stp-fails_example = stp-fails word 0 1 2 stack_vm

pops-sp_example : pops word (some sp) stack_vm ≡ pops word none stack_vm
pops-sp_example = pops-sp word stack_vm

pops-pushs_example :
    (vm₂ : Vm) × (pops quad_byte (some 2) pushed_vm ≡ ok vm₂)
    × (register vm₂ sp ≡ 12)
    × (get_unsigned (register vm₂ 2) quad_byte ≡ source_value stack_vm (some 1) quad_byte)
    × (vm₂.memory ≡ pushed_vm.memory)
pops-pushs_example =
    pops-pushs concrete-IsDocumented quad_byte (some 1) 2 stack_vm pushed_vm words_small
      (omega arith) (omega arith) (omega arith) pushs-stack_vm

run-isolated_example :
    (system (take_exception invalid_operation (advanced nop_vm)) ≡ system nop_vm) ⊎ Trapped 2 nop_vm
unfolding bit_as_bool
run-isolated_example =
    run-isolated 2 nop_vm (take_exception invalid_operation (advanced nop_vm)) refl run-nop_vm
