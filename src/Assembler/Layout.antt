-- ===== src/Assembler/Layout.antt =====
-- The two passes of `main` in acca-as/src/main.rs over the items of a source file.
pub mod Items
pub mod Labels
pub mod Output
pub mod Extension
pub mod Alignment
pub mod Names
pub mod Growth
pub mod Loop
pub mod Agreement
pub mod Positions
pub mod Duplicates
pub mod Twice
use acca.Prelude.{List}
use acca.Assembler.Outcome.{Host, Outcome, unwrap, exited, ok, ◌>>=◌}
use acca.Assembler.Layout.Items.{Item}
use acca.Assembler.Layout.Labels.{Layout, first_pass, initial_layout}
use acca.Assembler.Layout.Output.{Disk, File, created, Written, second_pass}
use acca.Prelude.{[], Option, none, some}

abbrev pub opened : {A : Type 0} → Option A → Outcome A
opened none = exited
opened (some file) = ok file

-- `main`, from the parsed items on: the file that it leaves.
unfoldable pub assemble : ⦃host : Host⦄ ⦃disk : Disk⦄ → List Item → Outcome File
assemble items = do
  layout ← first_pass items [] initial_layout
  file ← opened created
  written ← second_pass layout.labels items (record { addr = 0; file = file })
  ok written.file
