-- ===== src/Assembler/Tests.antt =====
-- The assembler on concrete source texts.
mod Images
mod Macros
use acca.Prelude.{
  ℕ, ◌-◌, ◌^◌, ◌≡◌, refl, arith, true, false, Option, none, some, List, [], ◌∷◌, ◌++◌,
}
use acca.Word.{IsWord}
use acca.Emu.Instruction.Select.{select}
use acca.Emu.Instruction.Encodings.{Opcode}
use mathlib.Core.List.{Mem}
use acca.Emu.State.{Vm}
use acca.Emu.Memory.{get_slice}
use acca.Assembler.Instructions.Run.{Holds, assembled-execute_one, jmpr-execute_one}
use acca.Emu.Execute.{execute_selected, finish, execute_one}
use acca.Emu.Tests.Concrete.{concrete, user_vm}
use acca.Emu.Util.Bit.{sign_extend_immediate, zero_extend_immediate}
use acca.Assembler.Outcome.{Host, ok, panicked, checked_sum}
use acca.Assembler.Syntax.{
  PrefixRule, decimal_literal, Immediate, RegisterPair, register_number, Operand, size_suffix,
}
use acca.Assembler.Template.{required}
use acca.Encoding.Scan.{encode, encode_from}
use acca.Assembler.Operands.{next_instr_size, parse_size, next_instr_condition, parse_argument}
use acca.Assembler.Template.Reading.{read_arguments, consume, consume_by_type}
use acca.Assembler.Template.Writing.{
  instruction, read_suffixes, condition_variables, operation_size_variables, body_words, arm_words,
  arm_word, size_variables,
}
use acca.Assembler.Instructions.Bodies.{body}
use acca.Assembler.Literal.{parse_integer, from_str_radix, digits_value, next_value, to_digit}
use acca.Assembler.Syntax.{InfixRule}
use acca.Assembler.Immediate.{
  get, insert, evaluate, evaluate_immediate, relative_to, truncate_immediate, map_prefix,
}
use acca.Assembler.Immediate.Range.{HasWords}
use acca.Assembler.Immediate.Arithmetic.{evaluate_immediate_lem}
use acca.Assembler.Layout.Twice.{label_twice, assemble-label_twice}
use acca.Assembler.Immediate.Truncation.{truncate_immediate_lem}
use acca.Assembler.Registers.{word, quad_byte, Argument, common_register_size}
use acca.Assembler.Registers.Common.{common_register_size_lem}
use acca.Assembler.Instructions.{Instr, instr, instruction_words}
use acca.Assembler.Instructions.Rules.{InstructionRule}
use acca.Assembler.Instructions.Parameters.{condition_modifier, size_modifier, parameters}
use acca.Assembler.Instructions.Words.{Selects, instruction_words-select}
use acca.Assembler.Instructions.Jump.{jmpr-execute}
use acca.Assembler.Instructions.Errors.{
  IsAssembled, no_condition-IsAssembled, register_no_size-IsAssembled,
}
use acca.Assembler.Layout.Items.{Item, label, directive_write, align}
use acca.Assembler.Layout.Items as Items
use acca.Assembler.Layout.Labels.{
  Layout, first_pass, initial_layout, place, assign, item_address, lay_out,
}
use acca.Assembler.Layout.Output.{
  Disk, File, Written, second_pass, write_item, write_values, write_at, write_words,
}
use acca.Assembler.Layout.Names.{no_redefinition}
use acca.Assembler.Layout.Agreement.{next_address}
use acca.Assembler.Layout.Positions.{labels-second_pass}
use acca.Assembler.Layout.{assemble}

-- A debug build.
instance abbrev debug : Host
debug = record { overflow_checks = true }

-- A file as the writes to it, the last one first.
abbrev write : List (ℕ × List ℕ) → ℕ → List ℕ → Option (List (ℕ × List ℕ))
write file position bytes = some ((position, bytes) ∷ file)

instance abbrev log : Disk
log = record { File = List (ℕ × List ℕ); created = some []; write_all_at = write }

abbrev five : Immediate
five = Immediate.integer (record { rule = decimal_literal; text = b'5' ∷ [] })

abbrev r2 : RegisterPair
r2 = record { num_or_name = register_number (b'2' ∷ []); size = none }

abbrev nop : Instr
nop = instr InstructionRule.nop [] []

-- `.write.b 5`, and then `loop: nop`.
abbrev start : List Item
start = directive_write (size_suffix "b" ∷ []) (five ∷ []) ∷ []

assemble-start :
    assemble (start ++ (label "loop" ∷ Items.instr nop ∷ []))
    ≡ ok ((4, 0 ∷ 0 ∷ 0 ∷ 4 ∷ []) ∷ (0, 5 ∷ []) ∷ [])
unfolding assemble first_pass place assign item_address lay_out align checked_sum second_pass
    write_item write_values write_at write_words get insert evaluate_immediate evaluate relative_to
    parse_integer from_str_radix digits_value next_value to_digit next_instr_size parse_size
    truncate_immediate instruction_words instruction read_suffixes condition_modifier size_modifier
    parameters read_arguments condition_variables operation_size_variables body body_words encode
    encode_from
assemble-start = refl

no_redefinition-start : no_redefinition (start ++ (label "loop" ∷ Items.instr nop ∷ [])) [] ≡ true
unfolding no_redefinition
no_redefinition-start = refl

labels-second_pass_example :
    (layout : Layout) × (file : File) × (written : Written) × (address : ℕ) × (first_pass
        (start ++ (label "loop" ∷ Items.instr nop ∷ []))
        []
        initial_layout
      ≡ ok layout)
    × (second_pass layout.labels start (record { addr = 0; file = file }) ≡ ok written)
    × (next_address (Items.instr nop ∷ []) written.addr ≡ ok address)
    × (get layout.labels "loop" ≡ some address)
labels-second_pass_example =
    labels-second_pass start (Items.instr nop ∷ []) "loop" no_redefinition-start assemble-start

-- `jmpr 5`, whose target is not aligned, and `jmpr 64`.
abbrev sixty_four : Immediate
sixty_four = Immediate.integer (record { rule = decimal_literal; text = b'6' ∷ b'4' ∷ [] })

evaluate-sixty_four : evaluate [] 0 sixty_four ≡ ok 64
unfolding evaluate parse_integer from_str_radix digits_value next_value to_digit
evaluate-sixty_four = refl

jmpr-execute_example :
    (w : ℕ) × (instruction_words
        (instr InstructionRule.jmpr [] (Operand.immediate sixty_four ∷ []))
        []
        4
      ≡ ok (w ∷ []))
    × (finish (execute_selected (select w) w (user_vm []))
        ≡ some (record (user_vm []) { instruction_pointer = 64 }))
jmpr-execute_example =
    jmpr-execute sixty_four [] 4 64 (user_vm []) evaluate-sixty_four (omega arith) refl

instruction_words-nop : instruction_words nop [] 4 ≡ ok (0x04000000 ∷ [])
unfolding instruction_words instruction read_suffixes condition_modifier size_modifier parameters
    read_arguments condition_variables operation_size_variables body body_words encode encode_from
instruction_words-nop = refl

instruction_words-select_example :
    (w : ℕ) × (0x04000000 ∷ [] ≡ w ∷ []) × Selects (Opcode.nop ∷ []) w
instruction_words-select_example =
    instruction_words-select InstructionRule.nop [] [] [] 4 instruction_words-nop

abbrev nop_vm : Vm
nop_vm = user_vm (0 ∷ 0 ∷ 0 ∷ 4 ∷ [])

nop_vm-Holds : Holds nop_vm 0x04000000
unfolding get_slice
nop_vm-Holds = refl

assembled-execute_one_example :
    (op : Opcode) × Mem op (Opcode.nop ∷ [])
    × (execute_one nop_vm ≡ finish (execute_selected (some op) 0x04000000 nop_vm))
assembled-execute_one_example =
    assembled-execute_one InstructionRule.nop [] [] [] 4 0x04000000 nop_vm instruction_words-nop
      nop_vm-Holds

-- `jmpr 64` at address 0.
abbrev jump_vm : Vm
jump_vm = user_vm (0x0f ∷ 0 ∷ 0xc0 ∷ 0x47 ∷ [])

jump_vm-Holds : Holds jump_vm 0x47c0000f
unfolding get_slice
jump_vm-Holds = refl

instruction_words-jmpr :
    instruction_words (instr InstructionRule.jmpr [] (Operand.immediate sixty_four ∷ [])) [] 4
    ≡ ok (0x47c0000f ∷ [])
unfolding instruction_words instruction read_suffixes condition_modifier size_modifier parameters
    read_arguments condition_variables operation_size_variables body body_words encode encode_from
    next_instr_condition consume consume_by_type parse_argument evaluate_immediate evaluate
    relative_to parse_integer from_str_radix digits_value next_value to_digit truncate_immediate
    arm_words arm_word size_variables
instruction_words-jmpr = refl

jmpr-execute_one_example : execute_one jump_vm ≡ some (record jump_vm { instruction_pointer = 64 })
jmpr-execute_one_example =
    jmpr-execute_one sixty_four [] 4 64 0x47c0000f jump_vm evaluate-sixty_four (omega arith)
      instruction_words-jmpr refl jump_vm-Holds

truncate_immediate_lem_example :
    (truncate_immediate 0x3000 13 true ≡ sign_extend_immediate 0x3000 13)
    × (truncate_immediate 0x3000 13 false ≡ zero_extend_immediate 0x3000 13)
truncate_immediate_lem_example = truncate_immediate_lem 0x3000 12 (omega arith)

abbrev sized : Option Argument
sized = some (Argument.register (record { id = 1; size = some quad_byte }))

common_register_size_lem_example :
    common_register_size (sized ∷ none ∷ sized ∷ []) (some word) ≡ panicked
common_register_size_lem_example = common_register_size_lem (sized ∷ none ∷ sized ∷ []) (some word)

no_labels : HasWords []
unfolding get
no_labels name value h = cc

-- -64 * (8 - 64), which is 3584, relative to 16.
evaluate_immediate_lem_example :
    evaluate_immediate
      (Immediate.infix_op
        (Immediate.prefix PrefixRule.neg sixty_four)
        InfixRule.mul
        (Immediate.infix_op Immediate.current_address InfixRule.sub sixty_four))
      []
      8
      (some 16)
    ≡ ok 892
unfolding evaluate parse_integer from_str_radix digits_value next_value to_digit
evaluate_immediate_lem_example =
    evaluate_immediate_lem
      (Immediate.infix_op (Immediate.prefix PrefixRule.neg sixty_four) InfixRule.mul
        (Immediate.infix_op Immediate.current_address InfixRule.sub sixty_four))
      [] 8 (some 16) no_labels (omega arith) (tt, (tt, tt)) (omega arith)

abbrev twice_a : List Item
twice_a = label "a" ∷ Items.instr nop ∷ label "a" ∷ []

label_twice-twice_a : label_twice twice_a "a" ≡ true
unfolding label_twice
label_twice-twice_a = refl

assemble-label_twice_example : ¬ ((output : File) × (assemble twice_a ≡ ok output))
assemble-label_twice_example = assemble-label_twice twice_a "a" label_twice-twice_a

sof_required : condition_modifier InstructionRule.sof ≡ required
unfolding condition_modifier
sof_required = refl

no_condition-IsAssembled_example :
    ¬ IsAssembled (instr InstructionRule.sof (size_suffix "b" ∷ []) (Operand.register r2 ∷ [])) [] 4
no_condition-IsAssembled_example =
    no_condition-IsAssembled InstructionRule.sof (size_suffix "b" ∷ []) (Operand.register r2 ∷ [])
      [] 4 sof_required refl

register_no_size-IsAssembled_example :
    ¬ IsAssembled (instr InstructionRule.jmpr [] (Operand.register_no_size r2 ∷ [])) [] 4
register_no_size-IsAssembled_example =
    register_no_size-IsAssembled InstructionRule.jmpr [] r2 [] [] 4 refl
