-- ===== src/Assembler/Instructions/Forever.antt =====
-- An image of assembled words that the emulator of acca-emu/src/main.rs runs for ever.
use acca.Prelude.{
  ℕ, ◌+◌, ◌-◌, ◌*◌, ◌^◌, ◌≤◌, ◌<◌, Bool, some, List, [], ◌∷◌, ◌++◌, length, replicate,
  length-append, length-replicate, append_assoc, ◌≡◌, ap, ◌∙◌, arith,
}
use mathlib.Core.Path.{subst}
use acca.Word.{to_le_bytes}
use acca.Emu.Platform.{Platform, IsDocumented}
use acca.Emu.State.{booted, set_print_instructions}
use acca.Emu.Execute.{run}
use acca.Emu.Main.{File, running, vm_memory_size, main, continued, ran}
use acca.Emu.Main.Load.{Stores, image_memory, start-Stores, vm_memory_size-lt}
use acca.Assembler.Outcome.{Host, ok}
use acca.Assembler.Syntax.{Operand, Immediate}
use acca.Assembler.Immediate.{Labels, evaluate}
use acca.Assembler.Instructions.{instr, instruction_words}
use acca.Assembler.Instructions.Rules.{InstructionRule}
use acca.Assembler.Instructions.Rounds.{
  words_bytes, nop_word, loop_image, at, run_round, run_rounds,
}

loop_image-append :
    (before after zeros : List ℕ) (k word : ℕ)
    → loop_image before k word after ++ zeros ≡ loop_image before k word (after ++ zeros)
loop_image-append before after zeros k word =
    append_assoc before (words_bytes (replicate k nop_word) ++ (to_le_bytes 4 word ++ after)) zeros
    ∙ ap (λ l. before ++ l)
        (append_assoc (words_bytes (replicate k nop_word)) (to_le_bytes 4 word ++ after) zeros
          ∙ ap (λ l. words_bytes (replicate k nop_word) ++ l)
              (append_assoc (to_le_bytes 4 word) after zeros))

length-image_memory :
    (contents : List ℕ)
    → length contents ≤ vm_memory_size
    → length (image_memory contents) ≡ vm_memory_size
length-image_memory contents fits = omega (
  arith,
  length-append contents (replicate (vm_memory_size - length contents) 0),
  length-replicate {A = ℕ} (vm_memory_size - length contents) 0,
  fits,
)

module _ ⦃platform : Platform⦄ where
  -- On a platform as documented, where the memory can be mapped, an image that can be read, fits
  -- into the memory and has at 0x0400 `k` words of `nop`, fewer than 2^21 - 1, and then the
  -- assembled `jmpr` without a condition to 0x0400, runs for ever: for every `times`, after `times`
  -- times `k + 1` rounds the emulator still runs, and the machine is as it was when it started.
  pub main-loop_image :
      ⦃host : Host⦄ (memory before after : List ℕ) (k : ℕ) (imm : Immediate) (labels : Labels)
      (word : ℕ) (file : File) (print : Bool) (times : ℕ)
      → IsDocumented platform
      → platform.map_anon vm_memory_size ≡ some memory
      → Stores file (loop_image before k word after)
      → length (loop_image before k word after) ≤ vm_memory_size
      → length before ≡ 0x0400
      → k < 2 ^ 21 - 1
      → evaluate labels (0x0400 + 4 * k) imm ≡ ok 0x0400
      → instruction_words
          (instr InstructionRule.jmpr [] (Operand.immediate imm ∷ []))
          labels
          (0x0400 + 4 * k + 4)
        ≡ ok (word ∷ [])
      → main (times * (k + 1)) (record { image = some file; print_instructions = print })
        ≡ running
            (set_print_instructions (booted (image_memory (loop_image before k word after))) print)
  unfolding main
  main-loop_image memory before after k imm labels word file print times documented mapped stores
        fits here small target assembled =
      let contents = loop_image before k word after in
      let zeros : List ℕ = replicate (vm_memory_size - length contents) 0 in
      let vm = set_print_instructions (booted (image_memory contents)) print in
      let round =
        run_round before (after ++ zeros) k imm labels word vm
          (loop_image-append before after zeros k word)
          (omega (arith, length-image_memory contents fits, vm_memory_size-lt)) (rw here target)
          (omega (arith, here, small)) (rw here assembled) in
      ap (continued (times * (k + 1)))
        (start-Stores memory contents file print documented mapped stores fits)
      ∙ ap ran (
          run_rounds times (k + 1) vm
            (subst (λ (ip : ℕ). run (k + 1) (at vm ip) ≡ some (at vm ip)) here round))
