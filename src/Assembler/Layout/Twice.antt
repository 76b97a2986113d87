-- ===== src/Assembler/Layout/Twice.antt =====
-- A label that stands twice is refused.
use Prim.Native.String.{String}
use text.Mathlib.Text.{◌==◌ as ◌is◌}
use text.Mathlib.TextEquality.{eq_iff}
use mathlib.Core.Path.{subst}
use mathlib.Core.Bool.{false≢true}
use acca.Prelude.{
  ◌≡◌, refl, ap, ◌∙◌, sym, ◌⊎◌, inl, inr, Bool, true, false, ◌||◌, List, [], ◌∷◌, ◌++◌, arith,
  Bool-cases, if◌then◌else◌,
}
use acca.Assembler.Outcome.{Host, ok, ok->>=}
use acca.Assembler.Immediate.{Labels, get, insert}
use acca.Assembler.Layout.Items.{Item, label, instr, directive_addr, directive_write, directive_def}
use acca.Assembler.Layout.Labels.{
  Layout, assign, item_address, place, lay_out, first_pass, initial_layout,
}
use acca.Assembler.Layout.Output.{Disk, File}
use acca.Assembler.Layout.Extension.{get-insert_self, get-insert_other}
use acca.Assembler.Layout.Names.{contains}
use acca.Assembler.Layout.Growth.{Grown, lay_out-Grown, place-Extends}
use acca.Assembler.Layout.Loop.{is_label, first_pass-Step, label-cases, contains-append}
use acca.Assembler.Layout.Agreement.{get-place}
use acca.Assembler.Layout.{assemble}
use acca.Assembler.Layout.Duplicates.{twice, IsKnown, Doomed, assign-Doomed, Doomed-append}

-- One of the items is the label.
abbrev pub has_label : List Item → String → Bool
has_label [] name = false
has_label (label other ∷ items) name = (other is name) || has_label items name
has_label (item ∷ items) name = has_label items name

-- Two of the items are the label.
unfoldable pub label_twice : List Item → String → Bool
label_twice [] name = false
label_twice (label other ∷ items) name =
    let rest = label_twice items name in if other is name then has_label items name else rest
label_twice (item ∷ items) name = label_twice items name

module _ ⦃host : Host⦄ where
  place-Doomed :
      (names : List String) (item : Item) (layout : Layout) (name : String) {placed : Layout}
      → Doomed names layout.labels name
      → place names item layout ≡ ok placed
      → ⊥
  unfolding place
  place-Doomed [] item layout name (inl (known, at)) h = absurd (false≢true at)
  place-Doomed [] item layout name (inr at) h = absurd (false≢true at)
  place-Doomed (other ∷ names) item layout name doomed h =
      let (addr, first, rest) = ok->>= (item_address item layout.addr) h in
      let (more, second, result) = ok->>= (assign (other ∷ names) layout.labels addr) rest in
      assign-Doomed (other ∷ names) layout.labels addr name doomed second

  first_pass-Doomed :
      (items : List Item) (names : List String) (layout : Layout) (name : String) {final : Layout}
      → Doomed names layout.labels name
      → first_pass items names layout ≡ ok final
      → ⊥
  unfolding first_pass
  first_pass-Doomed [] names layout name doomed h =
      let (labels, first, result) = ok->>= (assign names layout.labels layout.addr) h in
      assign-Doomed names layout.labels layout.addr name doomed first
  first_pass-Doomed (item ∷ items) names layout name {final} doomed h = elim (label-cases item) [
    | inl (more, same) ↦
        first_pass-Doomed items (names ++ (more ∷ [])) layout name {final = final}
          (Doomed-append names layout.labels more name doomed)
          (subst (λ i. first_pass (i ∷ items) names layout ≡ ok final) (sym same) h)
    | inr other ↦
        let (placed, next, first, second, rest) = first_pass-Step item items names layout other h in
        place-Doomed names item layout name doomed first
  ]

  -- An item forgets no name.
  Grown-IsKnown :
      (item : Item) (labels more : Labels) (name : String)
      → Grown item labels more
      → IsKnown labels name
      → IsKnown more name
  Grown-IsKnown (label other) labels more name same known = subst (λ l. IsKnown l name) same known
  Grown-IsKnown (instr i) labels more name same known = subst (λ l. IsKnown l name) same known
  Grown-IsKnown (directive_addr imm) labels more name same known =
      subst (λ l. IsKnown l name) same known
  Grown-IsKnown (directive_write suffixes imms) labels more name same known =
      subst (λ l. IsKnown l name) same known
  Grown-IsKnown (directive_def other imm) labels more name (value, same) (old, known) =
      subst (λ l. IsKnown l name) same
        (elim (Bool-cases (other is name)) [
          | inl here ↦ (
            value,
            ap (get (insert labels other value)) (sym ((eq_iff other name).0 here))
                ∙ get-insert_self labels other value,
          )
          | inr elsewhere ↦ (old, get-insert_other labels other name value elsewhere ∙ known)
        ])

  -- The name is known, or one of the labels just before.
  abbrev IsTaken : Layout → List String → String → Type 0
  IsTaken layout names name = IsKnown layout.labels name ⊎ (contains names name ≡ true)

  Step-IsTaken :
      (item : Item) (names : List String) (layout : Layout) (name : String) {placed next : Layout}
      → IsTaken layout names name
      → place names item layout ≡ ok placed
      → lay_out item placed ≡ ok next
      → IsTaken next [] name
  Step-IsTaken item names layout name {placed} {next} (inl (value, known)) first second = inl (
      Grown-IsKnown item placed.labels next.labels name (lay_out-Grown item placed second)
        (value, place-Extends names item layout first name value known))
  Step-IsTaken item names layout name {placed} {next} (inr at) first second =
      let (a, address, value) = get-place names item layout name at first in
      inl (
        Grown-IsKnown item placed.labels next.labels name (lay_out-Grown item placed second)
          (a, value))

  label-IsTaken :
      (names : List String) (layout : Layout) (more name : String)
      → IsTaken layout names name
      → IsTaken layout (names ++ (more ∷ [])) name
  label-IsTaken names layout more name (inl known) = inl known
  label-IsTaken names layout more name (inr at) =
      inr (ground (arith, contains-append names more name, at))

  taken-Doomed :
      (names : List String) (layout : Layout) (name : String)
      → IsTaken layout names name
      → Doomed (names ++ (name ∷ [])) layout.labels name
  taken-Doomed names layout name (inl known) =
      inl (known, ground (arith, contains-append names name name, eq_iff name name))
  taken-Doomed names layout name (inr at) = inr (twice-last names name at)
    where
      twice-last :
          (names : List String) (name : String)
          → contains names name ≡ true
          → twice (names ++ (name ∷ [])) name ≡ true
      twice-last [] name h = absurd (false≢true h)
      twice-last (other ∷ names) name h = elim (Bool-cases (other is name)) [
        | inl here ↦ ground (arith, contains-append names name name, eq_iff name name, here)
        | inr elsewhere ↦
            ground (arith, twice-last names name (ground (arith, h, elsewhere)), elsewhere)
      ]

  has_label-item :
      (item : Item) (items : List Item) (name : String)
      → is_label item ≡ false
      → has_label (item ∷ items) name ≡ has_label items name
  has_label-item (label other) items name h = absurd (false≢true (sym h))
  has_label-item (instr i) items name h = refl
  has_label-item (directive_addr imm) items name h = refl
  has_label-item (directive_write suffixes imms) items name h = refl
  has_label-item (directive_def other imm) items name h = refl

  -- A label that is taken stops the first pass.
  first_pass-IsTaken :
      (items : List Item) (names : List String) (layout : Layout) (name : String) {final : Layout}
      → IsTaken layout names name
      → has_label items name ≡ true
      → first_pass items names layout ≡ ok final
      → ⊥
  unfolding first_pass
  first_pass-IsTaken [] names layout name taken at h = absurd (false≢true at)
  first_pass-IsTaken (item ∷ items) names layout name {final} taken at h = elim (label-cases item) [
    | inl (more, same) ↦
        let passed = subst (λ i. first_pass (i ∷ items) names layout ≡ ok final) (sym same) h in
        let has = subst (λ i. has_label (i ∷ items) name ≡ true) (sym same) at in
        elim (Bool-cases (more is name)) [
          | inl here ↦
              first_pass-Doomed items (names ++ (more ∷ [])) layout name {final = final}
                (subst (λ m. Doomed (names ++ (m ∷ [])) layout.labels name)
                  (sym ((eq_iff more name).0 here)) (taken-Doomed names layout name taken))
                passed
          | inr elsewhere ↦
              first_pass-IsTaken items (names ++ (more ∷ [])) layout name {final = final}
                (label-IsTaken names layout more name taken) (ground (arith, has, elsewhere)) passed
        ]
    | inr other ↦
        let (placed, next, first, second, rest) = first_pass-Step item items names layout other h in
        first_pass-IsTaken items [] next name
          (Step-IsTaken item names layout name taken first second)
          (sym (has_label-item item items name other) ∙ at) rest
  ]

  label_twice-item :
      (item : Item) (items : List Item) (name : String)
      → is_label item ≡ false
      → label_twice (item ∷ items) name ≡ label_twice items name
  unfolding label_twice
  label_twice-item (label other) items name h = absurd (false≢true (sym h))
  label_twice-item (instr i) items name h = refl
  label_twice-item (directive_addr imm) items name h = refl
  label_twice-item (directive_write suffixes imms) items name h = refl
  label_twice-item (directive_def other imm) items name h = refl

  first_pass-label_twice :
      (items : List Item) (names : List String) (layout : Layout) (name : String) {final : Layout}
      → label_twice items name ≡ true
      → first_pass items names layout ≡ ok final
      → ⊥
  unfolding first_pass label_twice
  first_pass-label_twice [] names layout name at h = absurd (false≢true at)
  first_pass-label_twice (item ∷ items) names layout name {final} at h = elim (label-cases item) [
    | inl (more, same) ↦
        let passed = subst (λ i. first_pass (i ∷ items) names layout ≡ ok final) (sym same) h in
        let stands = subst (λ i. label_twice (i ∷ items) name ≡ true) (sym same) at in
        elim (Bool-cases (more is name)) [
          | inl here ↦
              first_pass-IsTaken items (names ++ (more ∷ [])) layout name {final = final}
                (inr (ground (arith, contains-append names more name, here)))
                (ground (arith, stands, here)) passed
          | inr elsewhere ↦
              first_pass-label_twice items (names ++ (more ∷ [])) layout name {final = final}
                (ground (arith, stands, elsewhere)) passed
        ]
    | inr other ↦
        let (placed, next, first, second, rest) = first_pass-Step item items names layout other h in
        first_pass-label_twice items [] next name
          (sym (label_twice-item item items name other) ∙ at) rest
  ]

  -- A source file in which a label stands twice is not assembled, whatever stands between the two
  -- and whatever the files of the operating system do.
  pub assemble-label_twice :
      ⦃disk : Disk⦄ (items : List Item) (name : String)
      → label_twice items name ≡ true
      → ¬ ((output : File) × (assemble items ≡ ok output))
  unfolding assemble
  assemble-label_twice items name at (output, assembled) =
      let (layout, first, rest) = ok->>= (first_pass items [] initial_layout) assembled in
      first_pass-label_twice items [] initial_layout name at first
