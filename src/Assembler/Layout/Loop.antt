-- ===== src/Assembler/Layout/Loop.antt =====
-- The loop of the first pass, one item at a time.
use Prim.Native.String.{String}
use mathlib.Core.Path.{subst}
use mathlib.Core.Bool.{and-eq-true_iff, false≢true}
use text.Mathlib.Text.{◌==◌ as ◌is◌}
use acca.Prelude.{
  ◌≡◌, refl, ◌∙◌, sym, Bool, true, false, not, ◌||◌, List, [], ◌∷◌, ◌++◌, arith, inl, inr, ◌⊎◌,
  Bool-cases,
}
use acca.Assembler.Outcome.{Host, ok, ◌>>=◌, ok->>=, ok-injective}
use acca.Assembler.Layout.Items.{Item, label, instr, directive_addr, directive_write, directive_def}
use acca.Assembler.Layout.Labels.{Layout, assign, place, lay_out, first_pass}
use acca.Assembler.Layout.Extension.{Extends}
use acca.Assembler.Layout.Names.{
  contains, with_name, redefines, no_redefinition, Within, Contained, assign-Extends,
  contains_further,
}
use acca.Assembler.Layout.Growth.{
  place-Extends, place-Within, lay_out-Grown, Grown-Extends, Grown-Within,
}

abbrev pub is_label : Item → Bool
is_label (label name) = true
is_label _ = false

pub Contained-nil : (seen : List String) → Contained [] seen
Contained-nil seen name at = cc

pub contains-append :
    (names : List String) (name found : String)
    → contains (names ++ (name ∷ [])) found ≡ (contains names found || (name is found))
contains-append [] name found = ground arith
contains-append (other ∷ names) name found = ground (arith, contains-append names name found)

Contained-append :
    (names seen : List String) (name : String)
    → Contained names seen
    → Contained (names ++ (name ∷ [])) (name ∷ seen)
Contained-append names seen name contained found at = elim (Bool-cases (contains names found)) [
  | inl before ↦ contains_further name seen found (contained found before)
  | inr last ↦ let whole = contains-append names name found in ground (arith, whole, at, last)
]

-- What no item redefines stays as it is.
abbrev pub Known : Layout → List String → List String → Type 0
Known layout names seen = Within layout.labels seen × Contained names seen

pub label-Known :
    (names : List String) (layout : Layout) (seen : List String) (name : String)
    → Known layout names seen
    → Known layout (names ++ (name ∷ [])) (name ∷ seen)
label-Known names layout seen name (within, contained) = (
  λ found value known. contains_further name seen found (within found value known),
  Contained-append names seen name contained,
)

pub label-cases : (item : Item) → ((name : String) × (label name ≡ item)) ⊎ (is_label item ≡ false)
label-cases (label name) = inl (name, refl)
label-cases (instr i) = inr refl
label-cases (directive_addr imm) = inr refl
label-cases (directive_write suffixes imms) = inr refl
label-cases (directive_def name imm) = inr refl

pub no_redefinition-cons :
    (item : Item) (items : List Item) (seen : List String)
    → no_redefinition (item ∷ items) seen ≡ true
    → (redefines item seen ≡ false) × (no_redefinition items (with_name item seen) ≡ true)
unfolding no_redefinition
no_redefinition-cons item items seen h =
    let (here, rest) =
      (and-eq-true_iff (not (redefines item seen)) (no_redefinition items (with_name item seen))).0
        h in
    (ground (arith, here), rest)

module _ ⦃host : Host⦄ where
  first_pass_step :
      (item : Item) (items : List Item) (names : List String) (layout : Layout)
      → is_label item ≡ false
      → first_pass (item ∷ items) names layout
        ≡ (place names item layout >>= λ placed. lay_out item placed >>= first_pass items [])
  unfolding first_pass
  first_pass_step (label name) items names layout h = absurd (false≢true (sym h))
  first_pass_step (instr i) items names layout h = refl
  first_pass_step (directive_addr imm) items names layout h = refl
  first_pass_step (directive_write suffixes imms) items names layout h = refl
  first_pass_step (directive_def name imm) items names layout h = refl

  -- What the loop does on an item that is not a label.
  abbrev pub Step : Item → List Item → List String → Layout → Layout → Type 0
  Step item items names layout final =
      (placed : Layout) × (next : Layout) × (place names item layout ≡ ok placed)
      × (lay_out item placed ≡ ok next)
      × (first_pass items [] next ≡ ok final)

  pub first_pass-Step :
      (item : Item) (items : List Item) (names : List String) (layout : Layout) {final : Layout}
      → is_label item ≡ false
      → first_pass (item ∷ items) names layout ≡ ok final
      → Step item items names layout final
  first_pass-Step item items names layout other h =
      let (placed, first, rest) =
        ok->>= (place names item layout)
          (sym (first_pass_step item items names layout other) ∙ h) in
      let (next, second, result) = ok->>= (lay_out item placed) rest in
      (placed, next, first, second, result)

  pub Step-Known :
      (item : Item) (names : List String) (layout : Layout) (seen : List String)
      {placed next : Layout}
      → Known layout names seen
      → redefines item seen ≡ false
      → place names item layout ≡ ok placed
      → lay_out item placed ≡ ok next
      → Extends placed.labels next.labels × Known next [] (with_name item seen)
  Step-Known item names layout seen {placed} {next} (within, contained) fresh first second =
      let placed_within = place-Within names item layout seen first within contained in
      let grown = lay_out-Grown item placed second in
      (
        Grown-Extends item placed.labels next.labels seen grown placed_within fresh,
        (Grown-Within item placed.labels next.labels seen grown placed_within, Contained-nil _),
      )

  pub first_pass-Extends :
      (items : List Item) (names : List String) (layout : Layout) (seen : List String)
      {final : Layout}
      → Known layout names seen
      → no_redefinition items seen ≡ true
      → first_pass items names layout ≡ ok final
      → Extends layout.labels final.labels
  unfolding first_pass
  first_pass-Extends [] names layout seen known fresh h =
      let (labels, first, result) = ok->>= (assign names layout.labels layout.addr) h in
      subst (λ (l : Layout). Extends layout.labels l.labels) (ok-injective result)
        (assign-Extends names layout.labels layout.addr first)
  first_pass-Extends (item ∷ items) names layout seen {final} known fresh h =
      let (once, later) = no_redefinition-cons item items seen fresh in
      elim (label-cases item) [
        | inl (name, same) ↦
            first_pass-Extends items (names ++ (name ∷ [])) layout (name ∷ seen)
              (label-Known names layout seen name known)
              (subst (λ i. no_redefinition items (with_name i seen) ≡ true) (sym same) later)
              (subst (λ i. first_pass (i ∷ items) names layout ≡ ok final) (sym same) h)
        | inr other ↦
            let (placed, next, first, second, rest) =
              first_pass-Step item items names layout other h in
            let (grows, still) = Step-Known item names layout seen known once first second in
            λ name value at.
              first_pass-Extends items [] next (with_name item seen) still later rest name value
                (grows name value (place-Extends names item layout first name value at))
      ]
