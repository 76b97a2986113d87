-- ===== src/Assembler/Instructions/Run.antt =====
-- The emulator on the words that the assembler writes.
use acca.Prelude.{ℕ, ◌^◌, ◌<◌, ◌≡◌, refl, sym, ap, ◌∙◌, some, List, [], ◌∷◌, arith}
use mathlib.Core.List.{Mem}
use acca.Word.{wrapping_add, wrapping_sub, to_le_bytes}
use acca.Emu.Platform.{Platform}
use acca.Emu.State as State
use acca.Emu.State.{Vm}
use acca.Emu.Memory.{get_slice}
use acca.Emu.Memory.Bytes.{from_le_bytes-to_le_bytes}
use acca.Emu.Instruction.Encodings.{Opcode}
use acca.Emu.Instruction.Select.{select}
use acca.Emu.Execute.{execute_one, execute_body, execute_selected, fetch, finish}
use acca.Assembler.Outcome.{Host, ok, ok-injective}
use acca.Assembler.Syntax.{Operand, Suffix, Immediate}
use acca.Assembler.Immediate.{Labels, evaluate}
use acca.Assembler.Instructions.{instr, instruction_words}
use acca.Assembler.Instructions.Rules.{InstructionRule}
use acca.Assembler.Instructions.Opcodes.{opcodes_of}
use acca.Assembler.Instructions.Words.{instruction_words-select}
use acca.Assembler.Instructions.Jump.{IsReachable, jmpr-execute}

-- The four bytes of the word stand where the instruction pointer points.
abbrev pub Holds : Vm → ℕ → Type 0
Holds vm word =
    get_slice vm.memory vm.instruction_pointer (wrapping_add vm.instruction_pointer 4)
    ≡ some (to_le_bytes 4 word)

only : {a b : ℕ} → ◌≡◌ {A = List ℕ} (a ∷ []) (b ∷ []) → a ≡ b
only h = cc

module _ ⦃platform : Platform⦄ where
  fetch-Holds : (vm : Vm) (word : ℕ) → Holds vm word → word < 2 ^ 32 → fetch vm ≡ State.ok word
  unfolding fetch
  fetch-Holds vm word holds small =
      rw (holds, fetch) (ap State.ok (from_le_bytes-to_le_bytes 4 word (omega arith)))

  pub execute_one-Holds :
      (vm : Vm) (word : ℕ)
      → Holds vm word
      → word < 2 ^ 32
      → execute_one vm ≡ finish (execute_selected (select word) word vm)
  unfolding execute_one execute_body
  execute_one-Holds vm word holds small = rw (fetch-Holds vm word holds small) refl

  -- When the memory at the instruction pointer holds the bytes of a word that the assembler wrote
  -- for an instruction, the emulator runs the word with a match arm of that instruction.
  pub assembled-execute_one :
      ⦃host : Host⦄ (rule : InstructionRule) (suffixes : List Suffix) (operands : List Operand)
      (labels : Labels) (addr word : ℕ) (vm : Vm)
      → instruction_words (instr rule suffixes operands) labels addr ≡ ok (word ∷ [])
      → Holds vm word
      → (op : Opcode) × Mem op (opcodes_of rule)
        × (execute_one vm ≡ finish (execute_selected (some op) word vm))
  assembled-execute_one rule suffixes operands labels addr word vm assembled holds =
      let (found, same, runs) =
        instruction_words-select rule suffixes operands labels addr assembled in
      let (op, member, selected, small) = runs in
      let here : word ≡ found = only same in
      (
        op,
        member,
        execute_one-Holds vm word holds (omega (arith, here, small))
            ∙ ap (λ o. finish (execute_selected o word vm)) (ap select here ∙ selected),
      )

  -- A processor at an aligned address, whose memory holds there the assembled `jmpr` without a
  -- condition to an aligned target from 8 MiB below to less than 8 MiB above the next address,
  -- continues at the target, with nothing else changed.
  pub jmpr-execute_one :
      ⦃host : Host⦄ (imm : Immediate) (labels : Labels) (addr target word : ℕ) (vm : Vm)
      → evaluate labels (wrapping_sub addr 4) imm ≡ ok target
      → IsReachable target addr
      → instruction_words (instr InstructionRule.jmpr [] (Operand.immediate imm ∷ [])) labels addr
        ≡ ok (word ∷ [])
      → vm.instruction_pointer ≡ wrapping_sub addr 4
      → Holds vm word
      → execute_one vm ≡ some (record vm { instruction_pointer = target })
  jmpr-execute_one imm labels addr target word vm h reach assembled here holds =
      let (found, same, runs) = jmpr-execute imm labels addr target vm h reach here in
      let word_same : found ≡ word = only (ok-injective (sym same ∙ assembled)) in
      let (one, single, chosen) =
        instruction_words-select InstructionRule.jmpr [] (Operand.immediate imm ∷ []) labels addr
          assembled in
      let (op, member, selected, small) = chosen in
      let one_same : word ≡ one = only single in
      execute_one-Holds vm word holds (omega (arith, one_same, small))
      ∙ (ap (λ (w : ℕ). finish (execute_selected (select w) w vm)) (sym word_same) ∙ runs)
