-- ===== src/Assembler/Layout/Items.antt =====
-- The items of a source file, and the alignment of addresses.
use Prim.Native.String.{String}
use acca.Prelude.{ℕ, bit_and, List}
use acca.Word.{bit_not}
use acca.Assembler.Outcome.{Host, Outcome, ok, ◌>>=◌, checked_sum}
use acca.Assembler.Syntax.{Immediate, Suffix}
use acca.Assembler.Instructions.{Instr}

-- The pairs under `root`, without the last, `EOI`.
pub data Item : Type 0 where
  label : String → Item
  instr : Instr → Item
  directive_addr : Immediate → Item
  directive_write : List Suffix → List Immediate → Item
  directive_def : String → Immediate → Item

-- `(addr + 3) & !3u64`
unfoldable pub align : ⦃host : Host⦄ → ℕ → Outcome ℕ
align addr = checked_sum addr 3 >>= λ raised. ok (bit_and raised (bit_not 3))
