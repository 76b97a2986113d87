-- ===== src/Lib.antt =====
-- acca is a 64-bit processor with 32-bit instructions. The repository has an emulator (acca-emu)
-- and an assembler (acca-as), each with a crate of procedural macros that turn strings such as
-- `1100110000000000000000ssddddaaaa` into a decoder (acca-emu-proc-macro) and into an encoder
-- (acca-as-proc-macro). The parts meet in the instruction word: the assembler writes it, and
-- `execute_one` of acca-emu/src/vm.rs fetches it, chooses a match arm and runs its body.
--
-- The files:
--   Prelude, Bits, Word: shared names; `bit_and` and `bit_or` on binary digits; the operations of
--     Rust on `u64`. A `u64` is a natural number below 2^64 and wraps by `% 2 ^ 64`; an `i64` is
--     kept as the bit pattern that `as u64` gives.
--   Encoding/Scan: the loops over an encoding's bits of `instructions!`
--     (acca-emu-proc-macro/src/lib.rs) and `instruction_encoding!` (acca-as-proc-macro/src/lib.rs).
--     Digits and Gather describe both by recursion on the bits, RoundTrip relates them. Collect is
--     `collect_into_array` of acca-emu-proc-macro/src/util.rs.
--   Emu/Platform: what comes from outside the sources, as a record of operations, and
--     `IsDocumented`, what the documentation of those crates promises: byteorder, memmap2,
--     bitflags, num_enum, and `overflow-checks` of the build profile.
--   Emu/Util: acca-emu/src/util.rs, sizes, registers, flags, conditions and machine registers.
--   Emu/State: the fields of `VM`; an early return and a panic of a handler are the values
--     `returned` and `panic` of `Flow`.
--   Emu/Exception, Emu/Memory, Emu/Arithmetic, Emu/Logic, Emu/Control, Emu/Machine:
--     `take_exception` and the bodies of the match arms of `execute_one`, by kind. The two arms of
--     one mnemonic are called `add_reg` and `add_imm`, and so on.
--   Emu/Instruction: the 50 encodings in the order of the source, the operands of each, and the
--     choice of the arm. Parameters, ArmParameters and OperandLists have the types of the
--     parameters and what the macro makes of them, ByType relates them to the operands.
--     TypeParser is the parser of the types over the streams of the crate syn, the record `Syn`.
--   Emu/Execute: `execute_one`, and `n` rounds of the endless loop of `run`.
--   Emu/Main: `main` of acca-emu/src/main.rs and `load_file` of vm.rs; an opened file is the record
--     `File` of its length and of what reading it gives.
--   Emu/Isolation: what a program in PL1 can reach.
--   Assembler/Outcome: how a piece of the assembler ends, in a value, in `exit(1)` or in a panic,
--     and `Host`, the `overflow-checks` of its build profile.
--   Assembler/Syntax: the pairs that the grammar acca-as/src/grammar.pest hands to
--     acca-as/src/main.rs. Literal, Immediate, Registers and Operands are the functions of
--     main.rs that read them, under their names. Literal/Written has the literals of the grammar
--     from their digits, Immediate/Integer immediates as integers without a bound.
--   Assembler/Template: the code that `instruction_helper` of acca-as-proc-macro/src/lib.rs
--     generates for an instruction. Reading has the arguments, Writing the arms of
--     `instruction_body!`, which hand their encoding to `instruction_encoding!`.
--   Assembler/Instructions: the table of `instructions!` in main.rs. Rules, Parameters and Bodies
--     are its columns; Opcodes names the emulator's match arms for each instruction; Allowed, Kinds,
--     Encoded and Words are about the arguments that are read and the words that are written; Jump
--     and Errors about single instructions; Run about the emulator on assembled words.
--   Assembler/Instructions/Rounds and Forever: rounds of `run` over assembled words.
--   Assembler/Macro: how acca-as-proc-macro/src/lib.rs reads its tokens, and `instruction_body!` of
--     main.rs with it. Tokens has the tokens of the proc_macro crate, Types and Header
--     `instruction_helper`, Encoding `instruction_encoding!`, Arms the arms in braces, Expansion
--     `instructions!`. Table has the tokens of the table of main.rs, in the notation of Notation.
--     Templates and Sequences run the macros on it, Fuel, Ends, ArmsEnd and Total are about their
--     ends, Alternatives about the alternatives of a type.
--   Assembler/Layout: the two passes of `main`. Labels is the first, Output the second; the
--     operating system's files are the record `Disk`. The other files relate the passes.
--   Assembler/Tests: a build profile, a file that logs its writes, and examples.
--   Emu/Tests: a platform that does what is documented, and examples.
--
-- Choices. The host is a 64-bit little-endian machine, so that `as usize` keeps an address and
-- `read_unaligned` of the exception tables reads little-endian words, in the order in which the
-- fields are declared. An index into the 16 registers is a number; `RegisterID::from` keeps it
-- below 16. `run` takes the number of rounds as an argument: no theorem needs it to be large. The
-- field `console` of `Vm` holds what `vm_console` printed; the traces of `println!` are left out.
--
-- The loop of the first pass over consecutive labels is a list of the names gathered so far. The
-- product of a size and a number of values in `.write` does not overflow, since the values are in
-- memory.
--
-- The macros' loops over arguments and arms are given as many rounds as there are tokens. A panic
-- of a macro is the value `panicked` of `Expansion`, the end of the rounds is another value. The
-- crate litrs, which reads the default of an argument, is the record `Litrs`.
--
-- Not modelled: the assembler's parser, which is the pest crate's, and its messages; how the macro
-- of the emulator takes its input apart, save the types of parameters; the readers of the command
-- lines, which are clap's; spans, and the names that rustc resolves in the generated code, of which
-- only the consumer functions that the table uses are known.
pub mod Prelude
pub mod Bits
pub mod Word
pub mod Encoding
pub mod Emu
pub mod Assembler
