-- ===== src/Assembler/Instructions/Rounds.antt =====
-- Rounds of `run` in acca-emu/src/vm.rs over words of `nop` and a `jmpr` that the assembler wrote.
use acca.Prelude.{
  ℕ, zero, suc, ◌+◌, ◌-◌, ◌*◌, ◌^◌, ◌<◌, some, none, List, [], ◌∷◌, ◌++◌, length, replicate,
  length-append, append_assoc, le→leb, take-append, drop-append, ◌≡◌, refl, sym, ap, ◌∙◌, arith,
  Option-cases, inl, inr,
}
use mathlib.Core.Path.{subst}
use acca.Word.{wrapping_add, wrapping_sub, to_le_bytes}
use acca.Emu.Platform.{Platform}
use acca.Emu.State.{Vm}
use acca.Emu.Memory.{get_slice}
use acca.Emu.Execute.{execute_one, execute_selected, execute, finish, run}
use acca.Emu.Instruction.Encodings.{Opcode, encoding}
use acca.Emu.Instruction.Select.{select, decode}
use acca.Emu.Instruction.Operands.{operands}
use acca.Emu.Instruction.Syntax.{Instruction}
use acca.Encoding.Scan.{matches, required_mask, required_mask_value}
use acca.Assembler.Outcome.{Host, ok}
use acca.Assembler.Syntax.{Operand, Immediate}
use acca.Assembler.Immediate.{Labels, evaluate}
use acca.Assembler.Instructions.{instr, instruction_words}
use acca.Assembler.Instructions.Rules.{InstructionRule}
use acca.Assembler.Instructions.Jump.{IsReachable}
use acca.Assembler.Instructions.Run.{Holds, execute_one-Holds, jmpr-execute_one}

-- The bytes of words, one behind the other.
abbrev pub words_bytes : List ℕ → List ℕ
words_bytes [] = []
words_bytes (word ∷ words) = to_le_bytes 4 word ++ words_bytes words

abbrev pub nop_word : ℕ
nop_word = 0x04000000

-- Bytes that stand behind as many bytes as the instruction pointer says.
get_slice-middle :
    (front bytes rest : List ℕ) (n : ℕ)
    → length bytes ≡ n
    → length (front ++ (bytes ++ rest)) < 2 ^ 64
    → get_slice (front ++ (bytes ++ rest)) (length front) (wrapping_add (length front) n)
      ≡ some bytes
unfolding get_slice
get_slice-middle front bytes rest n h small =
    let whole = length-append front (bytes ++ rest) in
    let part = length-append bytes rest in
    let end : wrapping_add (length front) n ≡ length front + n =
      omega (arith, whole, part, h, small) in
    rw
      (
        end,
        le→leb (length front) (length front + n) (omega arith),
        le→leb (length front + n) (length (front ++ (bytes ++ rest)))
            (omega (arith, whole, part, h)),
        drop-append front (bytes ++ rest) (length front) refl,
      )
      (ap some (take-append bytes rest (length front + n - length front) (omega (arith, h))))

word_of_nop :
    (select nop_word ≡ some Opcode.nop) × (decode Opcode.nop nop_word ≡ some Instruction.nop)
unfolding select matches required_mask required_mask_value decode operands encoding
word_of_nop = (refl, refl)

some-injective : {A : Type 0} {a b : A} → some a ≡ some b → a ≡ b
some-injective h = cc

none-some : {A : Type 0} {a : A} → none ≡ some a → ⊥
none-some h = cc

length-nops : (k : ℕ) → length (words_bytes (replicate k nop_word)) ≡ 4 * k
length-nops zero = omega arith
length-nops (suc k) = omega (arith, length-nops k)

-- `nop` in `k` words, and then a word.
abbrev pub loop_image : List ℕ → ℕ → ℕ → List ℕ → List ℕ
loop_image before k word after =
    before ++ (words_bytes (replicate k nop_word) ++ (to_le_bytes 4 word ++ after))

-- A processor at an address.
abbrev pub at : Vm → ℕ → Vm
at vm ip = record vm { instruction_pointer = ip }

Holds-middle :
    (front rest : List ℕ) (word : ℕ) (vm : Vm)
    → vm.memory ≡ front ++ (to_le_bytes 4 word ++ rest)
    → length vm.memory < 2 ^ 64
    → Holds (at vm (length front)) word
Holds-middle front rest word vm memory small =
    ap (λ l. get_slice l (length front) (wrapping_add (length front) 4)) memory
    ∙ get_slice-middle front (to_le_bytes 4 word) rest 4 refl
        (omega (arith, ap length memory, small))

module _ ⦃platform : Platform⦄ where
  nop-execute_one :
      (vm : Vm)
      → Holds vm nop_word
      → execute_one vm
        ≡ some (record vm { instruction_pointer = wrapping_add vm.instruction_pointer 4 })
  unfolding execute_selected execute finish
  nop-execute_one vm holds =
      execute_one-Holds vm nop_word holds (omega arith) ∙ rw (word_of_nop.0, word_of_nop.1) refl

  -- `m` rounds and then `n` more.
  run_more :
      (m n rounds : ℕ) (vm vm' : Vm)
      → rounds ≡ m + n
      → run m vm ≡ some vm'
      → run rounds vm ≡ run n vm'
  unfolding run
  run_more zero n rounds vm vm' e h =
      ap (λ (i : ℕ). run i vm) {x = rounds} {y = n} (omega (arith, e))
      ∙ ap (run n) (some-injective h)
  run_more (suc m) n zero vm vm' e h = absurd (omega (arith, e))
  run_more (suc m) n (suc rounds) vm vm' e h = elim (Option-cases (execute_one vm)) [
    | inl none_one ↦ absurd (none-some (rw (none_one, run) at h))
    | inr (vm₁, one) ↦
        rw (one, run) (run_more m n rounds vm₁ vm' (omega (arith, e)) (rw (one, run) at h))
  ]

  run_one : (vm vm' : Vm) → execute_one vm ≡ some vm' → run 1 vm ≡ some vm'
  unfolding run
  run_one vm vm' h = rw (h, run) refl

  -- A word of `nop` behind some bytes takes the instruction pointer behind it.
  run_nop :
      (front rest : List ℕ) (vm : Vm)
      → vm.memory ≡ front ++ (to_le_bytes 4 nop_word ++ rest)
      → length vm.memory < 2 ^ 64
      → run 1 (at vm (length front)) ≡ some (at vm (length (front ++ to_le_bytes 4 nop_word)))
  run_nop front rest vm memory small =
      let measured = length-append front (to_le_bytes 4 nop_word) in
      let whole = length-append front (to_le_bytes 4 nop_word ++ rest) in
      let size : length vm.memory ≡ length (front ++ (to_le_bytes 4 nop_word ++ rest)) =
        ap length memory in
      run_one (at vm (length front)) _
        (nop-execute_one (at vm (length front)) (Holds-middle front rest nop_word vm memory small))
      ∙ ap (λ ip. some (at vm ip)) {x = wrapping_add (length front) 4}
          {y = length (front ++ to_le_bytes 4 nop_word)}
          (omega (arith, measured, whole, size, small))

  -- `k` words of `nop` take the instruction pointer behind them.
  run_nops :
      (k : ℕ) (front rest : List ℕ) (vm : Vm)
      → vm.memory ≡ front ++ (words_bytes (replicate k nop_word) ++ rest)
      → length vm.memory < 2 ^ 64
      → run k (at vm (length front)) ≡ some (at vm (length front + 4 * k))
  unfolding run
  run_nops zero front rest vm memory small =
      ap (λ ip. some (at vm ip)) {x = length front} {y = length front + 4 * 0} (omega arith)
  run_nops (suc k) front rest vm memory small =
      let bytes = to_le_bytes 4 nop_word in
      let front' = front ++ bytes in
      let first =
        run_nop front (words_bytes (replicate k nop_word) ++ rest) vm
          (memory
            ∙ ap (λ l. front ++ l) (append_assoc bytes (words_bytes (replicate k nop_word)) rest))
          small in
      let others =
        run_nops k front' rest vm
          (memory
            ∙ ap (λ l. front ++ l) (append_assoc bytes (words_bytes (replicate k nop_word)) rest)
            ∙ sym (append_assoc front bytes (words_bytes (replicate k nop_word) ++ rest)))
          small in
      run_more 1 k (suc k) (at vm (length front)) (at vm (length front')) (omega arith) first
      ∙ others
      ∙ ap (λ ip. some (at vm ip)) {x = length front' + 4 * k} {y = length front + 4 * suc k}
          (omega (arith, length-append front bytes))

  -- A round of the program of such an image.
  pub run_round :
      ⦃host : Host⦄ (before after : List ℕ) (k : ℕ) (imm : Immediate) (labels : Labels) (word : ℕ)
      (vm : Vm)
      → vm.memory ≡ before ++ (words_bytes (replicate k nop_word) ++ (to_le_bytes 4 word ++ after))
      → length vm.memory < 2 ^ 64
      → evaluate labels (length before + 4 * k) imm ≡ ok (length before)
      → IsReachable (length before) (length before + 4 * k + 4)
      → instruction_words
          (instr InstructionRule.jmpr [] (Operand.immediate imm ∷ []))
          labels
          (length before + 4 * k + 4)
        ≡ ok (word ∷ [])
      → run (k + 1) (at vm (length before)) ≡ some (at vm (length before))
  run_round before after k imm labels word vm memory small target reach assembled =
      let front = before ++ words_bytes (replicate k nop_word) in
      let measured : length front ≡ length before + 4 * k =
        omega (arith, length-append before (words_bytes (replicate k nop_word)), length-nops k) in
      let here : wrapping_sub (length before + 4 * k + 4) 4 ≡ length before + 4 * k =
        omega (arith, reach) in
      let holds : Holds (at vm (length before + 4 * k)) word =
        subst (λ (ip : ℕ). Holds (at vm ip) word) measured
          (Holds-middle front after word vm
            (memory
              ∙ sym (
                  append_assoc before (words_bytes (replicate k nop_word))
                    (to_le_bytes 4 word ++ after)))
            small) in
      run_more k 1 (k + 1) (at vm (length before)) (at vm (length before + 4 * k)) (omega arith)
        (run_nops k before (to_le_bytes 4 word ++ after) vm memory small)
      ∙ run_one (at vm (length before + 4 * k)) (at vm (length before)) (
          jmpr-execute_one imm labels (length before + 4 * k + 4) (length before) word
            (at vm (length before + 4 * k)) (rw here target) reach assembled (sym here) holds)

  pub run_rounds :
      (times rounds : ℕ) (vm : Vm) → run rounds vm ≡ some vm → run (times * rounds) vm ≡ some vm
  unfolding run
  run_rounds zero rounds vm h = ap (λ (i : ℕ). run i vm) {x = zero * rounds} {y = 0} (omega arith)
  run_rounds (suc times) rounds vm h =
      run_more rounds (times * rounds) (suc times * rounds) vm vm (grind arith) h
      ∙ run_rounds times rounds vm h
