-- ===== src/Assembler/Instructions/Words.antt =====
-- The words that an instruction's block writes, and the emulator's choice for them.
use mathlib.Core.Path.{subst}
use mathlib.Core.List.{Mem, mem-cons_self, mem-cons_of_mem}
use acca.Prelude.{
  ℕ, true, some, List, [], ◌∷◌, ◌++◌, ◌≡◌, refl, ap, ◌∙◌, arith, inl, inr, Bool-cases, ◌<◌, ◌^◌,
  length,
}
use acca.Word.{wrapping_sub}
use acca.Encoding.Scan.{InstructionBit, encode}
use acca.Encoding.Refinement.{refines, matches-refines, refines-length, encode-lt}
use acca.Emu.Instruction.Encodings.{Opcode, encoding}
use acca.Emu.Instruction.Select.{select}
use acca.Emu.Instruction.RoundTrip.{select-matches}
use acca.Assembler.Outcome.{Host, ok, ok->>=}
use acca.Assembler.Syntax.{Operand, Suffix}
use acca.Assembler.Immediate.{Labels}
use acca.Assembler.Template.Reading.{read_arguments}
use acca.Assembler.Template.Writing.{
  read_suffixes, condition_variables, operation_size_variables, instruction,
}
use acca.Assembler.Instructions.{instr, instruction_words}
use acca.Assembler.Instructions.Rules.{InstructionRule}
use acca.Assembler.Instructions.Parameters.{condition_modifier, size_modifier, parameters}
use acca.Assembler.Instructions.Bodies.{body}
use acca.Assembler.Instructions.Opcodes.{
  opcodes_of, chosen, refines_any, single, all_kinds-single, parameters_sound,
}
use acca.Assembler.Instructions.Allowed.{kinds}
use acca.Assembler.Instructions.Kinds.{read_arguments-kinds}
use acca.Assembler.Instructions.Encoded.{IsEncoded, body_words-IsEncoded}

-- The word has 32 bits and is one that the emulator runs with one of the match arms.
abbrev pub Selects : List Opcode → ℕ → Type 0
Selects ops word = (op : Opcode) × Mem op ops × (select word ≡ some op) × (word < 2 ^ 32)

encoding-length : (op : Opcode) → length (encoding op) ≡ 32
unfolding encoding
encoding-length Opcode.pushs = refl
encoding-length _ = refl

encoded-lt :
    (bits : List InstructionBit) (op : Opcode) (values : ℕ → ℕ)
    → refines bits (encoding op) ≡ true
    → encode bits values < 2 ^ 32
encoded-lt bits op values h =
    let same = refines-length bits (encoding op) h ∙ encoding-length op in
    subst (λ (n : ℕ). encode bits values < 2 ^ n) same (encode-lt bits values)

refines_any-Selects :
    (bits : List InstructionBit) (ops : List Opcode) (values : ℕ → ℕ)
    → refines_any bits ops ≡ true
    → Selects ops (encode bits values)
refines_any-Selects bits [] values h = cc
refines_any-Selects bits (op ∷ ops) values h = elim (Bool-cases (refines bits (encoding op))) [
  | inl here ↦ (
    op,
    mem-cons_self,
    select-matches op (encode bits values) (matches-refines bits (encoding op) values here),
    encoded-lt bits op values here,
  )
  | inr elsewhere ↦
      let (found, member, selected, small) =
        refines_any-Selects bits ops values (ground (arith, h, elsewhere)) in
      (found, mem-cons_of_mem op member, selected, small)
]

single-Selects :
    (encodings : List (List InstructionBit)) (ops : List Opcode) (words : List ℕ)
    → single encodings ops ≡ true
    → IsEncoded encodings words
    → (word : ℕ) × (words ≡ word ∷ []) × Selects ops word
single-Selects [] ops words h encoded = cc
single-Selects (bits ∷ []) ops words h (values, rest, same, nil) = (
  encode bits values,
  same ∙ ap (λ ws. encode bits values ∷ ws) nil,
  refines_any-Selects bits ops values h,
)
single-Selects (bits ∷ others ∷ encodings) ops words h encoded = cc

-- An instruction that is assembled, at whatever address and with whatever suffixes and operands,
-- writes exactly one word, which has 32 bits, and the emulator chooses a match arm of the
-- instruction for it.
pub instruction_words-select :
    ⦃host : Host⦄ (rule : InstructionRule) (suffixes : List Suffix) (operands : List Operand)
    (labels : Labels) (addr : ℕ) {words : List ℕ}
    → instruction_words (instr rule suffixes operands) labels addr ≡ ok words
    → (word : ℕ) × (words ≡ word ∷ []) × Selects (opcodes_of rule) word
unfolding instruction_words instruction
instruction_words-select rule suffixes operands labels addr {words} h =
    let (mods, first, reading) =
      ok->>= (read_suffixes (condition_modifier rule) (size_modifier rule) suffixes) h in
    let (arguments, second, conditions) =
      ok->>= (read_arguments (parameters rule) labels (wrapping_sub addr 4) addr operands)
        reading in
    let (c, third, sizes) =
      ok->>= (condition_variables (condition_modifier rule) mods.0) conditions in
    let (s, fourth, result) =
      ok->>= (operation_size_variables (size_modifier rule) mods.1 arguments) sizes in
    let encoded = body_words-IsEncoded arguments (s ++ c) (body rule) (parameters rule) result in
    single-Selects (chosen (body rule) (parameters rule) (kinds arguments)) (opcodes_of rule) words
      (read_arguments-kinds (parameters rule) labels (wrapping_sub addr 4) addr operands
        (λ ks. single (chosen (body rule) (parameters rule) ks) (opcodes_of rule))
        (parameters_sound rule) second (all_kinds-single rule))
      encoded
