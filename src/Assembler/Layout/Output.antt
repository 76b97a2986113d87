-- ===== src/Assembler/Layout/Output.antt =====
-- The second pass, which writes the output file.
use acca.Prelude.{ℕ, ◌+◌, ◌*◌, false, Option, none, some, List, [], ◌∷◌, length}
use acca.Word.{wrapping_sub, to_le_bytes}
use acca.Assembler.Outcome.{Host, Outcome, ok, exited, ◌>>=◌, unwrap, checked_sum}
use acca.Assembler.Syntax.{Immediate}
use acca.Assembler.Immediate.{Labels, evaluate_immediate, truncate_immediate}
use acca.Assembler.Registers.{Size, byte_size}
use acca.Assembler.Operands.{next_instr_size}
use acca.Assembler.Instructions.{instruction_words}
use acca.Assembler.Layout.Items.{
  Item, label, instr, directive_addr, directive_write, directive_def, align,
}

-- The operating system's files: what `File::create` gives for the output's path, and
-- `write_all_at`; `none` is an error.
pub record Disk : Type 1 where
  pub File : Type 0
  pub created : Option File
  pub write_all_at : File → ℕ → List ℕ → Option File

abbrev pub File : ⦃disk : Disk⦄ → Type 0
File ⦃disk⦄ = disk.File

abbrev pub created : ⦃disk : Disk⦄ → Option File
created ⦃disk⦄ = disk.created

-- `addr` and the output file.
pub record Written ⦃disk : Disk⦄ : Type 0 where
  pub addr : ℕ
  pub file : File

module _ ⦃disk : Disk⦄ where
  -- An error ends in `exit(1)`.
  abbrev pub succeeded : Option File → Outcome File
  succeeded none = exited
  succeeded (some file) = ok file

  unfoldable pub write_at : ℕ → List ℕ → File → Outcome File
  write_at position bytes file = succeeded (disk.write_all_at file position bytes)

  -- `write_instruction` on each of the words, at `addr - 4`.
  unfoldable pub write_words : List ℕ → ℕ → File → Outcome File
  write_words [] addr file = ok file
  write_words (word ∷ words) addr file =
      write_at (wrapping_sub addr 4) (to_le_bytes 4 word) file >>= write_words words addr

  module _ ⦃host : Host⦄ where
    -- The loop of `.write`, after `immediate_count` values.
    unfoldable pub write_values : Size → Labels → ℕ → List Immediate → ℕ → File → Outcome File
    write_values size labels addr [] immediate_count file = ok file
    write_values size labels addr (imm ∷ imms) immediate_count file = do
      val ← evaluate_immediate imm labels addr none
      position ← checked_sum addr (immediate_count * byte_size size)
      let bytes = to_le_bytes (byte_size size) (truncate_immediate val (byte_size size * 8) false)
      next ← write_at position bytes file
      write_values size labels addr imms (immediate_count + 1) next

    unfoldable pub write_item : Labels → Item → Written → Outcome Written
    write_item labels (label name) written = ok written
    write_item labels (instr i) written = do
      start ← align written.addr
      addr ← checked_sum start 4
      words ← instruction_words i labels addr
      file ← write_words words addr written.file
      ok (record { addr = addr; file = file })
    write_item labels (directive_addr imm) written = do
      addr ← evaluate_immediate imm labels written.addr none
      ok (record written { addr = addr })
    write_item labels (directive_write suffixes imms) written = do
      found ← next_instr_size suffixes
      size ← unwrap found
      file ← write_values size labels written.addr imms 0 written.file
      addr ← checked_sum written.addr (byte_size size * length imms)
      ok (record { addr = addr; file = file })
    write_item labels (directive_def name imm) written = ok written

    unfoldable pub second_pass : Labels → List Item → Written → Outcome Written
    second_pass labels [] written = ok written
    second_pass labels (item ∷ items) written =
        write_item labels item written >>= second_pass labels items
