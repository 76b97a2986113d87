-- ===== src/Assembler/Layout/Agreement.antt =====
-- The two passes agree on the addresses.
use Prim.Native.String.{String}
use mathlib.Core.Bool.{false≢true}
use acca.Prelude.{ℕ, ◌*◌, ◌≡◌, refl, ap, ◌∙◌, sym, true, false, none, some, List, [], ◌∷◌, length}
use acca.Assembler.Outcome.{Host, Outcome, ok, ok->>=, ok-injective, unwrap, checked_sum}
use acca.Assembler.Registers.{Size, byte_size}
use acca.Assembler.Operands.{next_instr_size}
use acca.Assembler.Immediate.{Labels, get, evaluate_immediate}
use acca.Assembler.Instructions.{instruction_words}
use acca.Assembler.Layout.Items.{
  Item, label, instr, directive_addr, directive_write, directive_def, align,
}
use acca.Assembler.Layout.Labels.{Layout, assign, item_address, place, lay_out}
use acca.Assembler.Layout.Output.{Disk, Written, write_words, write_values, write_item}
use acca.Assembler.Layout.Extension.{Extends, evaluate_immediate-Extends}
use acca.Assembler.Layout.Alignment.{align_twice}
use acca.Assembler.Layout.Names.{contains, get-assign}
use acca.Assembler.Layout.Loop.{is_label}

-- The address of the first item of a list that is not a label, which is aligned for an
-- instruction.
unfoldable pub next_address : ⦃host : Host⦄ → List Item → ℕ → Outcome ℕ
next_address [] addr = ok addr
next_address (label name ∷ items) addr = next_address items addr
next_address (instr i ∷ items) addr = align addr
next_address (item ∷ items) addr = ok addr

module _ ⦃host : Host⦄ where
  pub next_address_item :
      (item : Item) (items : List Item) (addr : ℕ)
      → is_label item ≡ false
      → next_address (item ∷ items) addr ≡ item_address item addr
  unfolding next_address item_address
  next_address_item (label name) items addr h = absurd (false≢true (sym h))
  next_address_item (instr i) items addr h = refl
  next_address_item (directive_addr imm) items addr h = refl
  next_address_item (directive_write suffixes imms) items addr h = refl
  next_address_item (directive_def name imm) items addr h = refl

  item_address_twice :
      (item : Item) (addr : ℕ) {a : ℕ} → item_address item addr ≡ ok a → item_address item a ≡ ok a
  unfolding item_address
  item_address_twice (instr i) addr h = align_twice addr h
  item_address_twice (label name) addr h = refl
  item_address_twice (directive_addr imm) addr h = refl
  item_address_twice (directive_write suffixes imms) addr h = refl
  item_address_twice (directive_def name imm) addr h = refl

  -- The labels before an item do not change where it stands.
  pub item_address-place :
      (names : List String) (item : Item) (layout : Layout) {placed : Layout}
      → place names item layout ≡ ok placed
      → item_address item placed.addr ≡ item_address item layout.addr
  unfolding place
  item_address-place [] item layout h =
      ap (λ (l : Layout). item_address item l.addr) (sym (ok-injective h))
  item_address-place (name ∷ names) item layout h =
      let (addr, first, rest) = ok->>= (item_address item layout.addr) h in
      let (more, second, result) = ok->>= (assign (name ∷ names) layout.labels addr) rest in
      ap (λ (l : Layout). item_address item l.addr) (sym (ok-injective result))
      ∙ (item_address_twice item layout.addr first ∙ sym first)

  -- The labels before an item get its address.
  pub get-place :
      (names : List String) (item : Item) (layout : Layout) (name : String) {placed : Layout}
      → contains names name ≡ true
      → place names item layout ≡ ok placed
      → (a : ℕ) × (item_address item layout.addr ≡ ok a) × (get placed.labels name ≡ some a)
  unfolding place
  get-place [] item layout name at h = cc
  get-place (other ∷ names) item layout name at h =
      let (addr, first, rest) = ok->>= (item_address item layout.addr) h in
      let (more, second, result) = ok->>= (assign (other ∷ names) layout.labels addr) rest in
      let known = get-assign (other ∷ names) layout.labels addr name second at in
      (addr, first, ap (λ (l : Layout). get l.labels name) (sym (ok-injective result)) ∙ known)

  module _ ⦃disk : Disk⦄ where
    agree : {A : Type 0} {o o' : Outcome A} {a a' : A} → o ≡ ok a → o' ≡ ok a' → o ≡ o' → a ≡ a'
    agree h k same = ok-injective (sym h ∙ (same ∙ k))

    -- An item moves both passes to the same address.
    pub addr-write_item :
        (item : Item) (layout : Layout) (written : Written) (labels : Labels) {next : Layout}
        {later : Written}
        → Extends layout.labels labels
        → item_address item layout.addr ≡ item_address item written.addr
        → lay_out item layout ≡ ok next
        → write_item labels item written ≡ ok later
        → next.addr ≡ later.addr
    unfolding lay_out write_item item_address
    addr-write_item (label name) layout written labels extends start h k =
        ap (λ (l : Layout). l.addr) (sym (ok-injective h))
        ∙ (ok-injective start ∙ ap (λ (w : Written). w.addr) (ok-injective k))
    addr-write_item (instr i) layout written labels extends start h k =
        let (a, aligned, rest) = ok->>= (align layout.addr) h in
        let (addr, sum, result) = ok->>= (checked_sum a 4) rest in
        let (a', aligned', rest') = ok->>= (align written.addr) k in
        let (addr', sum', writes) = ok->>= (checked_sum a' 4) rest' in
        let (words, word, into) = ok->>= (instruction_words i labels addr') writes in
        let (file, saved, result') = ok->>= (write_words words addr' written.file) into in
        let here = ok-injective (sym aligned ∙ (start ∙ aligned')) in
        let sums = ok-injective (sym sum ∙ (ap (λ (x : ℕ). checked_sum x 4) here ∙ sum')) in
        ap (λ (l : Layout). l.addr) (sym (ok-injective result))
        ∙ (sums ∙ ap (λ (w : Written). w.addr) (ok-injective result'))
    addr-write_item (directive_addr imm) layout written labels extends start h k =
        let (addr, first, result) =
          ok->>= (evaluate_immediate imm layout.labels layout.addr none) h in
        let (addr', first', result') = ok->>= (evaluate_immediate imm labels written.addr none) k in
        let extended =
          evaluate_immediate-Extends layout.labels labels layout.addr imm none extends first in
        let here = ap (λ (x : ℕ). evaluate_immediate imm labels x none) (ok-injective start) in
        ap (λ (l : Layout). l.addr) (sym (ok-injective result))
        ∙ (agree extended first' here ∙ ap (λ (w : Written). w.addr) (ok-injective result'))
    addr-write_item (directive_write suffixes imms) layout written labels extends start h k =
        let (found, first, sized) = ok->>= (next_instr_size suffixes) h in
        let (size, second, rest) = ok->>= (unwrap found) sized in
        let (addr, third, result) =
          ok->>= (checked_sum layout.addr (byte_size size * length imms)) rest in
        let (found', first', sized') = ok->>= (next_instr_size suffixes) k in
        let (size', second', rest') = ok->>= (unwrap found') sized' in
        let (file, saved, counted) =
          ok->>= (write_values size' labels written.addr imms 0 written.file) rest' in
        let (addr', third', result') =
          ok->>= (checked_sum written.addr (byte_size size' * length imms)) counted in
        let one = agree first first' refl in
        let size_same = agree second second' (ap unwrap one) in
        let here =
          ap (λ (s : Size). checked_sum layout.addr (byte_size s * length imms)) size_same in
        let there =
          ap (λ (x : ℕ). checked_sum x (byte_size size' * length imms)) (ok-injective start) in
        ap (λ (l : Layout). l.addr) (sym (ok-injective result))
        ∙ (agree third third' (here ∙ there) ∙ ap (λ (w : Written). w.addr) (ok-injective result'))
    addr-write_item (directive_def name imm) layout written labels extends start h k =
        let (value, first, result) =
          ok->>= (evaluate_immediate imm layout.labels layout.addr none) h in
        ap (λ (l : Layout). l.addr) (sym (ok-injective result))
        ∙ (ok-injective start ∙ ap (λ (w : Written). w.addr) (ok-injective k))
