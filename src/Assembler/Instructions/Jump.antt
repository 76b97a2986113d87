-- ===== src/Assembler/Instructions/Jump.antt =====
-- A relative jump, from the source text's target to the emulator's instruction pointer.
use acca.Prelude.{
  ℕ, ◌+◌, ◌/◌, ◌%◌, ◌^◌, ◌<◌, ◌≤◌, bit_and, ◌≡◌, refl, ap, ◌∙◌, Bool, true, false, ◌&&◌, none, some,
  [], ◌∷◌, ◌==◌, if◌then◌else◌, arith,
}
use acca.Word.{wrapping_sub, wrapping_add, wrapping_mul, i64_mul_overflows}
use acca.Bits.Mask.{bit_and_low}
use acca.Encoding.Scan.{encode}
use acca.Emu.Util.Bit.{sign_extend_immediate}
use acca.Emu.Platform.{Platform}
use acca.Emu.State as State
use acca.Emu.State.{Vm, Flow}
use acca.Emu.Control.{relative_target, do_jump, jump, jmpr_imm, should_jump}
use acca.Emu.Instruction.Encodings.{Opcode, encoding}
use acca.Emu.Instruction.Operands.{operands}
use acca.Emu.Instruction.Select.{select}
use acca.Emu.Instruction.RoundTrip.{decode-encode}
use acca.Emu.Execute.{execute, execute_selected, finish}
use acca.Assembler.Outcome.{Host, ok}
use acca.Assembler.Syntax.{Operand, Immediate}
use acca.Assembler.Immediate.{Labels, evaluate, evaluate_immediate, relative_to, truncate_immediate}
use acca.Assembler.Immediate.Truncation.{truncate-signed, sign_extend_immediate_lem}
use acca.Assembler.Operands.{parse_argument, next_instr_condition}
use acca.Assembler.Template.Reading.{read_arguments, consume, consume_by_type}
use acca.Assembler.Template.Writing.{
  value_of, instruction, read_suffixes, condition_variables, operation_size_variables, body_words,
  arm_words, arm_word, size_variables,
}
use acca.Assembler.Instructions.{instr, instruction_words}
use acca.Assembler.Instructions.Rules.{InstructionRule}
use acca.Assembler.Instructions.Parameters.{condition_modifier, size_modifier, parameters}
use acca.Assembler.Instructions.Bodies.{body}

-- The target of a jump and the address after the jump are aligned, and the target is from 8 MiB
-- below that address to less than 8 MiB above it.
abbrev pub IsReachable : ℕ → ℕ → Type 0
IsReachable target addr =
    (target % 4 ≡ 0)
    × (addr % 4 ≡ 0)
    × (target < 2 ^ 64)
    × (addr < 2 ^ 64)
    × (addr ≤ target + 2 ^ 23)
    × (target < addr + 2 ^ 23)

abbrev distance : ℕ → ℕ → ℕ
distance target addr = wrapping_sub (target / 4) (addr / 4)

-- A distance that fits 22 bits survives the encoding.
distance_lem :
    (target addr : ℕ)
    → IsReachable target addr
    → sign_extend_immediate (truncate_immediate (distance target addr) 22 true % 2 ^ 32 % 2 ^ 22) 22
      ≡ distance target addr
distance_lem target addr reach =
    rw
      (
        sign_extend_immediate_lem
            (truncate_immediate (distance target addr) 22 true % 2 ^ 32 % 2 ^ 22) 21 (omega arith),
        truncate-signed (distance target addr) 21 (omega arith),
      )
      (ground (arith, reach))

aligned_test : (target : ℕ) → target % 4 ≡ 0 → (bit_and target 3 == 0) ≡ true
aligned_test target h = ground (arith, bit_and_low 2 target, h)

relative-distance :
    (target addr : ℕ) → target % 4 ≡ 0 → relative_to (some addr) target ≡ ok (distance target addr)
unfolding relative_to
relative-distance target addr h = rw (aligned_test target h) refl

unchecked :
    (checks : Bool) (x : ℕ) → (if checks && false then State.panic else State.ok x) ≡ State.ok x
unchecked true x = refl
unchecked false x = refl

no_overflow :
    (target addr : ℕ) → IsReachable target addr → i64_mul_overflows (distance target addr) 4 ≡ false
no_overflow target addr reach = ground (arith, reach)

reached :
    (target addr : ℕ)
    → IsReachable target addr
    → wrapping_add (wrapping_add (wrapping_sub addr 4) 4) (wrapping_mul (distance target addr) 4)
      ≡ target
reached target addr reach = omega (arith, reach)

module _ ⦃platform : Platform⦄ where
  jump_target :
      (target addr : ℕ) (vm : Vm)
      → IsReachable target addr
      → vm.instruction_pointer ≡ wrapping_sub addr 4
      → relative_target (distance target addr) vm ≡ State.ok target
  unfolding relative_target
  jump_target target addr vm reach here =
      rw (no_overflow target addr reach, here)
        (unchecked platform.overflow_checks _ ∙ ap State.ok (reached target addr reach))

  jump_taken :
      (target addr : ℕ) (vm : Vm)
      → IsReachable target addr
      → vm.instruction_pointer ≡ wrapping_sub addr 4
      → finish (jmpr_imm none (distance target addr) vm)
        ≡ some (record vm { instruction_pointer = target })
  unfolding finish jmpr_imm jump do_jump should_jump
  jump_taken target addr vm reach here =
      rw (jump_target target addr vm reach here, aligned_test target reach.0)
        (ap (λ (ip : ℕ). some (record vm { instruction_pointer = ip })) (omega (arith, reach)))

module _ ⦃host : Host⦄ where
  assembled :
      (imm : Immediate) (labels : Labels) (addr target : ℕ)
      → evaluate labels (wrapping_sub addr 4) imm ≡ ok target
      → target % 4 ≡ 0
      → instruction_words (instr InstructionRule.jmpr [] (Operand.immediate imm ∷ [])) labels addr
        ≡ ok (
            encode (encoding Opcode.jmpr_imm) (
              value_of
                ((b'a', truncate_immediate (distance target addr) 22 true) ∷ (b'c', 15) ∷ []))
            ∷ [])
  unfolding instruction_words instruction read_suffixes condition_modifier size_modifier parameters
      next_instr_condition read_arguments consume consume_by_type parse_argument evaluate_immediate
      condition_variables operation_size_variables body body_words arm_words arm_word size_variables
      encoding
  assembled imm labels addr target h aligned = rw (h, relative-distance target addr aligned) refl

  module _ ⦃platform : Platform⦄ where
    -- A `jmpr` without a condition, at an aligned address and to an aligned target from 8 MiB below
    -- to less than 8 MiB above the address after it, is assembled into one word, and a processor at
    -- that address that runs the word continues at the target, with nothing else changed.
    pub jmpr-execute :
        (imm : Immediate) (labels : Labels) (addr target : ℕ) (vm : Vm)
        → evaluate labels (wrapping_sub addr 4) imm ≡ ok target
        → IsReachable target addr
        → vm.instruction_pointer ≡ wrapping_sub addr 4
        → (word : ℕ) × (instruction_words
              (instr InstructionRule.jmpr [] (Operand.immediate imm ∷ []))
              labels
              addr
            ≡ ok (word ∷ []))
          × (finish (execute_selected (select word) word vm)
              ≡ some (record vm { instruction_pointer = target }))
    unfolding execute_selected operands execute encoding
    jmpr-execute imm labels addr target vm h reach here =
        let values =
          value_of ((b'a', truncate_immediate (distance target addr) 22 true) ∷ (b'c', 15) ∷ []) in
        let (selected, decoded) = decode-encode Opcode.jmpr_imm values in
        (
          encode (encoding Opcode.jmpr_imm) values,
          assembled imm labels addr target h reach.0,
          rw (selected, decoded, distance_lem target addr reach)
              (jump_taken target addr vm reach here),
        )
