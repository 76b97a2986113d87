-- ===== src/Assembler/Tests/Images.antt =====
-- The emulator on concrete images.
use acca.Prelude.{
  ℕ, ◌≤◌, ◌<◌, ◌≡◌, refl, arith, true, false, none, some, List, [], ◌∷◌, length, take, replicate,
  leb, if◌then◌else◌,
}
use acca.Emu.State.{booted, set_print_instructions}
use acca.Emu.Main.{File, running, crashed, vm_memory_size, start, main}
use acca.Emu.Main.Load.{Stores, image_memory, start-Stores, start-crashed}
use acca.Emu.Tests.Concrete.{concrete, concrete-IsDocumented}
use acca.Encoding.Scan.{encode, encode_from}
use acca.Assembler.Outcome.{ok}
use acca.Assembler.Syntax.{decimal_literal, Immediate, Operand}
use acca.Assembler.Literal.{parse_integer, from_str_radix, digits_value, next_value, to_digit}
use acca.Assembler.Immediate.{evaluate, evaluate_immediate, relative_to, truncate_immediate}
use acca.Assembler.Operands.{next_instr_condition, parse_argument}
use acca.Assembler.Template.Reading.{read_arguments, consume, consume_by_type}
use acca.Assembler.Template.Writing.{
  instruction, read_suffixes, condition_variables, operation_size_variables, body_words, arm_words,
  arm_word, size_variables,
}
use acca.Assembler.Instructions.{instr, instruction_words}
use acca.Assembler.Instructions.Rules.{InstructionRule}
use acca.Assembler.Instructions.Parameters.{condition_modifier, size_modifier, parameters}
use acca.Assembler.Instructions.Bodies.{body}
use acca.Assembler.Instructions.Rounds.{loop_image}
use acca.Assembler.Instructions.Forever.{main-loop_image}
use acca.Assembler.Tests.{debug}

-- A file that can be read.
abbrev file_of : List ℕ → File
file_of contents = record {
  metadata = some (length contents);
  read_exact = λ n. if leb n (length contents) then some (take n contents) else none;
}

abbrev hello : List ℕ
hello = 1 ∷ 2 ∷ 3 ∷ []

hello-Stores : Stores (file_of hello) hello
hello-Stores = record { metadata = refl; read_exact = refl }

hello-fits : length hello ≤ vm_memory_size
unfolding vm_memory_size
hello-fits = omega arith

start-Stores_example :
    start (record { image = some (file_of hello); print_instructions = true })
    ≡ running (set_print_instructions (booted (image_memory hello)) true)
start-Stores_example =
    start-Stores (replicate vm_memory_size 0) hello (file_of hello) true concrete-IsDocumented refl
      hello-Stores hello-fits

-- A file of 64 MiB, of which nothing is read.
abbrev large : File
large = record { metadata = some 0x4000000; read_exact = λ n. none }

large-lt : vm_memory_size < 0x4000000
unfolding vm_memory_size
large-lt = omega arith

start-crashed_example : start (record { image = some large; print_instructions = false }) ≡ crashed
start-crashed_example =
    start-crashed (replicate vm_memory_size 0) large 0x4000000 false concrete-IsDocumented refl refl
      large-lt (omega arith)

-- Two words of `nop` and `jmpr 1024`, at 1024.
abbrev start_address : Immediate
start_address =
    Immediate.integer (record { rule = decimal_literal; text = b'1' ∷ b'0' ∷ b'2' ∷ b'4' ∷ [] })

abbrev padding : List ℕ
padding = replicate 0x0400 0

abbrev image : List ℕ
image = loop_image padding 2 0x47fffffd []

evaluate-start_address : evaluate [] 1032 start_address ≡ ok 1024
unfolding evaluate parse_integer from_str_radix digits_value next_value to_digit
evaluate-start_address = refl

instruction_words-jmpr :
    instruction_words (instr InstructionRule.jmpr [] (Operand.immediate start_address ∷ [])) [] 1036
    ≡ ok (0x47fffffd ∷ [])
unfolding instruction_words instruction read_suffixes condition_modifier size_modifier parameters
    read_arguments condition_variables operation_size_variables body body_words encode encode_from
    next_instr_condition consume consume_by_type parse_argument evaluate_immediate evaluate
    relative_to parse_integer from_str_radix digits_value next_value to_digit truncate_immediate
    arm_words arm_word size_variables
instruction_words-jmpr = refl

image-Stores : Stores (file_of image) image
image-Stores = record { metadata = refl; read_exact = refl }

image-fits : length image ≤ vm_memory_size
unfolding vm_memory_size
image-fits = omega arith

main-loop_image_example :
    main 21 (record { image = some (file_of image); print_instructions = false })
    ≡ running (set_print_instructions (booted (image_memory image)) false)
main-loop_image_example =
    main-loop_image (replicate vm_memory_size 0) padding [] 2 start_address [] 0x47fffffd
      (file_of image) false 7 concrete-IsDocumented refl image-Stores image-fits refl (omega arith)
      evaluate-start_address instruction_words-jmpr
