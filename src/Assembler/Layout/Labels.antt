-- ===== src/Assembler/Layout/Labels.antt =====
-- The first pass, which determines all addresses.
use Prim.Native.String.{String}
use acca.Prelude.{ℕ, ◌*◌, Option, none, some, List, [], ◌∷◌, ◌++◌, length}
use acca.Assembler.Outcome.{Host, Outcome, ok, panicked, ◌>>=◌, unwrap, checked_sum}
use acca.Assembler.Immediate.{Labels, get, insert, evaluate_immediate}
use acca.Assembler.Registers.{byte_size}
use acca.Assembler.Operands.{next_instr_size}
use acca.Assembler.Layout.Items.{
  Item, label, instr, directive_addr, directive_write, directive_def, align,
}

-- `label_addrs` and `addr`.
pub record Layout : Type 0 where
  pub labels : Labels
  pub addr : ℕ

abbrev pub initial_layout : Layout
initial_layout = record { labels = []; addr = 0 }

-- `if let Some(_) = label_addrs.insert(label_name, addr)`
abbrev pub insert_new : Option ℕ → Labels → String → ℕ → Outcome Labels
insert_new none labels name addr = ok (insert labels name addr)
insert_new (some old) labels name addr = panicked

unfoldable pub assign : List String → Labels → ℕ → Outcome Labels
assign [] labels addr = ok labels
assign (name ∷ names) labels addr = do
  extended ← insert_new (get labels name) labels name addr
  assign names extended addr

-- The address of the labels before an item, which is aligned for an instruction.
unfoldable pub item_address : ⦃host : Host⦄ → Item → ℕ → Outcome ℕ
item_address (instr i) addr = align addr
item_address (label name) addr = ok addr
item_address (directive_addr imm) addr = ok addr
item_address (directive_write suffixes imms) addr = ok addr
item_address (directive_def name imm) addr = ok addr

-- The consecutive labels that have been gathered get the address of the item after them.
unfoldable pub place : ⦃host : Host⦄ → List String → Item → Layout → Outcome Layout
place [] item layout = ok layout
place (name ∷ names) item layout = do
  addr ← item_address item layout.addr
  labels ← assign (name ∷ names) layout.labels addr
  ok (record { labels = labels; addr = addr })

-- An item that is not a label.
unfoldable pub lay_out : ⦃host : Host⦄ → Item → Layout → Outcome Layout
lay_out (label name) layout = ok layout
lay_out (instr i) layout = do
  start ← align layout.addr
  addr ← checked_sum start 4
  ok (record layout { addr = addr })
lay_out (directive_addr imm) layout = do
  addr ← evaluate_immediate imm layout.labels layout.addr none
  ok (record layout { addr = addr })
lay_out (directive_write suffixes imms) layout = do
  found ← next_instr_size suffixes
  size ← unwrap found
  addr ← checked_sum layout.addr (byte_size size * length imms)
  ok (record layout { addr = addr })
lay_out (directive_def name imm) layout = do
  value ← evaluate_immediate imm layout.labels layout.addr none
  ok (record layout { labels = insert layout.labels name value })

-- The loop; `names` are the consecutive labels just before `items`.
unfoldable pub first_pass : ⦃host : Host⦄ → List Item → List String → Layout → Outcome Layout
first_pass [] names layout = do
  labels ← assign names layout.labels layout.addr
  ok (record layout { labels = labels })
first_pass (label name ∷ items) names layout = first_pass items (names ++ (name ∷ [])) layout
first_pass (item ∷ items) names layout = do
  placed ← place names item layout
  next ← lay_out item placed
  first_pass items [] next
