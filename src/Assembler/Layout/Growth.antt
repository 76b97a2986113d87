-- ===== src/Assembler/Layout/Growth.antt =====
-- Where no name is redefined, the first pass only adds to the map of the labels.
use Prim.Native.String.{String}
use mathlib.Core.Path.{subst}
use mathlib.Core.Bool.{false≢true}
use acca.Prelude.{
  ℕ, ◌*◌, ◌≡◌, ap, ◌∙◌, sym, false, none, List, [], ◌∷◌, length, inl, inr, Option-cases,
}
use acca.Assembler.Outcome.{Host, ok, ok->>=, ok-injective, unwrap, checked_sum}
use acca.Assembler.Registers.{byte_size}
use acca.Assembler.Immediate.{Labels, get, insert, evaluate_immediate}
use acca.Assembler.Operands.{next_instr_size}
use acca.Assembler.Layout.Items.{
  Item, label, instr, directive_addr, directive_write, directive_def, align,
}
use acca.Assembler.Layout.Labels.{Layout, assign, item_address, place, lay_out}
use acca.Assembler.Layout.Extension.{Extends, insert-Extends}
use acca.Assembler.Layout.Names.{
  contains, with_name, redefines, Within, Contained, assign-Extends, assign-Within, Within-insert,
  contains_here, contains_further,
}

module _ ⦃host : Host⦄ where
  pub place-Extends :
      (names : List String) (item : Item) (layout : Layout) {placed : Layout}
      → place names item layout ≡ ok placed
      → Extends layout.labels placed.labels
  unfolding place
  place-Extends [] item layout h other old known = rw (sym (ok-injective h)) known
  place-Extends (name ∷ names) item layout h other old known =
      let (addr, first, rest) = ok->>= (item_address item layout.addr) h in
      let (more, second, result) = ok->>= (assign (name ∷ names) layout.labels addr) rest in
      rw (sym (ok-injective result))
        (assign-Extends (name ∷ names) layout.labels addr second other old known)

  pub place-Within :
      (names : List String) (item : Item) (layout : Layout) (seen : List String) {placed : Layout}
      → place names item layout ≡ ok placed
      → Within layout.labels seen
      → Contained names seen
      → Within placed.labels seen
  unfolding place
  place-Within [] item layout seen h within contained =
      subst (λ (l : Layout). Within l.labels seen) (ok-injective h) within
  place-Within (name ∷ names) item layout seen h within contained =
      let (addr, first, rest) = ok->>= (item_address item layout.addr) h in
      let (more, second, result) = ok->>= (assign (name ∷ names) layout.labels addr) rest in
      subst (λ (l : Layout). Within l.labels seen) (ok-injective result)
        (assign-Within (name ∷ names) layout.labels addr seen second within contained)

  -- The map after an item.
  abbrev pub Grown : Item → Labels → Labels → Type 0
  Grown (directive_def name imm) labels more = (value : ℕ) × (insert labels name value ≡ more)
  Grown _ labels more = labels ≡ more

  pub lay_out-Grown :
      (item : Item) (layout : Layout) {next : Layout}
      → lay_out item layout ≡ ok next
      → Grown item layout.labels next.labels
  unfolding lay_out
  lay_out-Grown (label name) layout h = ap (λ (l : Layout). l.labels) (ok-injective h)
  lay_out-Grown (instr i) layout h =
      let (start, first, rest) = ok->>= (align layout.addr) h in
      let (addr, second, result) = ok->>= (checked_sum start 4) rest in
      ap (λ (l : Layout). l.labels) (ok-injective result)
  lay_out-Grown (directive_addr imm) layout h =
      let (addr, first, result) =
        ok->>= (evaluate_immediate imm layout.labels layout.addr none) h in
      ap (λ (l : Layout). l.labels) (ok-injective result)
  lay_out-Grown (directive_write suffixes imms) layout h =
      let (found, first, sized) = ok->>= (next_instr_size suffixes) h in
      let (size, second, rest) = ok->>= (unwrap found) sized in
      let (addr, third, result) =
        ok->>= (checked_sum layout.addr (byte_size size * length imms)) rest in
      ap (λ (l : Layout). l.labels) (ok-injective result)
  lay_out-Grown (directive_def name imm) layout h =
      let (value, first, result) =
        ok->>= (evaluate_immediate imm layout.labels layout.addr none) h in
      (value, ap (λ (l : Layout). l.labels) (ok-injective result))

  unknown :
      (labels : Labels) (name : String) (seen : List String)
      → Within labels seen
      → contains seen name ≡ false
      → get labels name ≡ none
  unknown labels name seen within fresh = elim (Option-cases (get labels name)) [
    | inl nothing ↦ nothing
    | inr (value, known) ↦ let at = within name value known in absurd (false≢true (sym fresh ∙ at))
  ]

  pub Grown-Extends :
      (item : Item) (labels more : Labels) (seen : List String)
      → Grown item labels more
      → Within labels seen
      → redefines item seen ≡ false
      → Extends labels more
  Grown-Extends (label name) labels more seen same within fresh other old known =
      rw (sym same) known
  Grown-Extends (instr i) labels more seen same within fresh other old known = rw (sym same) known
  Grown-Extends (directive_addr imm) labels more seen same within fresh other old known =
      rw (sym same) known
  Grown-Extends (directive_write suffixes imms) labels more seen same within fresh other old known =
      rw (sym same) known
  Grown-Extends (directive_def name imm) labels more seen (value, same) within fresh other old
        known =
      rw (sym same)
        (insert-Extends labels name value (unknown labels name seen within fresh) other old known)

  pub Grown-Within :
      (item : Item) (labels more : Labels) (seen : List String)
      → Grown item labels more
      → Within labels seen
      → Within more (with_name item seen)
  Grown-Within (label name) labels more seen same within other old known =
      contains_further name seen other (within other old (rw same known))
  Grown-Within (instr i) labels more seen same within other old known =
      within other old (rw same known)
  Grown-Within (directive_addr imm) labels more seen same within other old known =
      within other old (rw same known)
  Grown-Within (directive_write suffixes imms) labels more seen same within other old known =
      within other old (rw same known)
  Grown-Within (directive_def name imm) labels more seen (value, same) within other old known =
      Within-insert labels name value (name ∷ seen)
        (λ found was at. contains_further name seen found (within found was at))
        (contains_here name seen) other old (rw same known)
