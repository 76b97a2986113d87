-- ===== src/Emu/Execute/Handlers.antt =====
-- Entering exception handlers and returning from them.
use acca.Prelude.{
  ℕ, ◌+◌, ◌*◌, ◌^◌, ◌≤◌, ◌<◌, ◌≡◌, refl, ap, ◌∙◌, arith, Bool, true, false, none, some, ◌==◌,
  if◌then◌else◌, set-set, set-get_or,
}
use acca.Word.{IsWord, wrapping_add, wrapping_sub}
use acca.Emu.Platform.{Platform}
use acca.Emu.Util.Bit.{bit_as_bool}
use acca.Emu.Util.Bit.Laws.{bit_as_bool-set_bit_with_bool}
use acca.Emu.Util.Register.{sp}
use acca.Emu.Util.Flags.{
  pl0, pl1, privilege_level, exceptions_enabled, set_exceptions_enabled, set_privilege_level,
}
use acca.Emu.State.{Vm, ok, set_register}
use acca.Emu.Exception.{
  Exception, unknown, invalid_instruction, debug, user, invalid_operation, instruction_load_error,
  data_load_error, interrupt, id, pl_offset, take_exception,
}
use acca.Emu.Control.{eret, udf}
use acca.Emu.Isolation.System.{advanced}
use mathlib.Core.Option.{some-injective}
use acca.Emu.Instruction.Select.{select}
use acca.Emu.Execute.{execute_selected, fetch, finish, execute_one, execute_body}

-- The flags on entry to a handler.
abbrev handler_flags : ℕ → ℕ
handler_flags flags = set_privilege_level (set_exceptions_enabled flags false) pl0

handler_flags-bit :
    (flags j : ℕ)
    → j < 64
    → bit_as_bool (handler_flags flags) j
      ≡ (if j == 5 then false else if j == 4 then false else bit_as_bool flags j)
handler_flags-bit flags j h =
    rw
      (
        bit_as_bool-set_bit_with_bool _ 5 j false (omega arith) h,
        bit_as_bool-set_bit_with_bool flags 4 j false (omega arith) h,
      )
      refl

id-lt : (exception : Exception) → id exception < 8
id-lt unknown = omega arith
id-lt invalid_instruction = omega arith
id-lt debug = omega arith
id-lt (user value) = omega arith
id-lt invalid_operation = omega arith
id-lt instruction_load_error = omega arith
id-lt (data_load_error address write byte_size) = omega arith
id-lt (interrupt value) = omega arith

-- The address of the handler `slot` of the table at `table`, for a program in PL1 or in PL0.
abbrev slot_address : Bool → ℕ → ℕ → ℕ
slot_address in_pl1 slot table =
    wrapping_add (wrapping_add table (pl_offset (if in_pl1 then pl1 else pl0))) (slot * 32)

slots-apart :
    (in₁ in₂ : Bool) (slot₁ slot₂ table₁ table₂ : ℕ)
    → slot₁ < 8
    → slot₂ < 8
    → table₁ ≡ table₂
    → table₁ + 512 ≤ 2 ^ 64
    → slot_address in₁ slot₁ table₁ < slot_address in₂ slot₂ table₂ + 32
    → slot_address in₂ slot₂ table₂ < slot_address in₁ slot₁ table₁ + 32
    → (slot₁ ≡ slot₂) × ((if in₁ then pl1 else pl0) ≡ (if in₂ then pl1 else pl0))
slots-apart false false s₁ s₂ t₁ t₂ h₁ h₂ same fits below above = (omega arith, refl)
slots-apart false true s₁ s₂ t₁ t₂ h₁ h₂ same fits below above = absurd (omega arith)
slots-apart true false s₁ s₂ t₁ t₂ h₁ h₂ same fits below above = absurd (omega arith)
slots-apart true true s₁ s₂ t₁ t₂ h₁ h₂ same fits below above = (omega arith, refl)

module _ ⦃platform : Platform⦄ where
  -- An exception is taken in PL0 with exceptions masked, and leaves the condition flags, which
  -- are the bits below 4, as they were.
  pub take_exception-flags :
      (exception : Exception) (vm : Vm) (j : ℕ)
      → j < 4
      → let flags = (take_exception exception vm).flags in
        (privilege_level flags ≡ pl0)
        × (exceptions_enabled flags ≡ false)
        × (bit_as_bool flags j ≡ bit_as_bool vm.flags j)
  unfolding take_exception
  take_exception-flags exception vm j h = (
    rw (handler_flags-bit vm.flags 5 (omega arith)),
    handler_flags-bit vm.flags 4 (omega arith),
    ground (arith, h, handler_flags-bit vm.flags j (omega arith)),
  )

  abbrev resumed : Vm → Vm
  resumed vm = record (set_register vm sp vm.esp) {
    instruction_pointer = wrapping_add (wrapping_sub vm.elr 4) 4;
    flags = vm.eflags;
  }

  -- `eret` right after an exception does not fault and resumes the interrupted program: the
  -- instruction pointer, which is a word, the flags, all registers and the memory are as before
  -- the exception.
  pub eret-take_exception :
      (exception : Exception) (vm : Vm)
      → IsWord vm.instruction_pointer
      → (vm' : Vm) × (finish (eret (take_exception exception vm)) ≡ some vm')
        × (vm'.instruction_pointer ≡ vm.instruction_pointer)
        × (vm'.flags ≡ vm.flags)
        × (vm'.register_file ≡ vm.register_file)
        × (vm'.memory ≡ vm.memory)
  unfolding eret take_exception finish
  eret-take_exception exception vm h = (
    resumed (take_exception exception vm),
    rw (handler_flags-bit vm.flags 5 (omega arith)),
    omega (arith, h),
    refl,
    set-set vm.register_file sp _ _ ∙ set-get_or vm.register_file sp 0,
    refl,
  )

  -- The handlers of different exceptions, and of the two privilege levels that were interrupted,
  -- start at addresses 32 bytes or more apart: two handlers of one table, all of which lies below
  -- 2^64, that start closer than that have the same exception id and the same level.
  pub take_exception-apart :
      (e₁ e₂ : Exception) (vm₁ vm₂ : Vm)
      → vm₁.evtable_addr ≡ vm₂.evtable_addr
      → vm₁.evtable_addr + 512 ≤ 2 ^ 64
      → (take_exception e₁ vm₁).instruction_pointer
        < (take_exception e₂ vm₂).instruction_pointer + 32
      → (take_exception e₂ vm₂).instruction_pointer
        < (take_exception e₁ vm₁).instruction_pointer + 32
      → (id e₁ ≡ id e₂) × (privilege_level vm₁.flags ≡ privilege_level vm₂.flags)
  unfolding take_exception
  take_exception-apart e₁ e₂ vm₁ vm₂ same fits below above =
      slots-apart (bit_as_bool vm₁.flags 5) (bit_as_bool vm₂.flags 5) (id e₁) (id e₂)
        vm₁.evtable_addr vm₂.evtable_addr (id-lt e₁) (id-lt e₂) same fits below above

  -- A fetched word that encodes no instruction leaves the state that `udf` leaves, but with the
  -- instruction pointer 4 bytes beyond the start of the handler.
  pub execute_one-undecodable :
      (vm : Vm) (encoded : ℕ) (vm' : Vm)
      → fetch vm ≡ ok encoded
      → select encoded ≡ none
      → finish (udf vm) ≡ some vm'
      → execute_one vm ≡ some (advanced vm')
  unfolding execute_one execute_body finish udf execute_selected
  execute_one-undecodable vm encoded vm' fetched missing entered =
      rw (fetched, missing) (ap (λ v. some (advanced v)) (some-injective _ _ entered))
