-- ===== src/Assembler/Layout/Positions.antt =====
-- The addresses of the labels are those where the second pass writes.
use Prim.Native.String.{String}
use mathlib.Core.Path.{subst}
use acca.Prelude.{ℕ, ◌≡◌, refl, ap, ◌∙◌, sym, true, some, List, [], ◌∷◌, ◌++◌, arith, inl, inr}
use acca.Assembler.Outcome.{Host, ok, ok->>=, ok-injective}
use acca.Assembler.Immediate.{Labels, get}
use acca.Assembler.Layout.Items.{Item, label}
use acca.Assembler.Layout.Labels.{Layout, assign, item_address, first_pass, initial_layout}
use acca.Assembler.Layout.Output.{Disk, File, created, Written, write_item, second_pass}
use acca.Assembler.Layout.Names.{contains, Within, with_name, no_redefinition, get-assign}
use acca.Assembler.Layout.Loop.{
  first_pass-Step, Known, Step-Known, first_pass-Extends, label-Known, label-cases,
  no_redefinition-cons, contains-append, Contained-nil,
}
use acca.Assembler.Layout.{assemble, opened}
use text.Mathlib.TextEquality.{eq_iff}
use acca.Assembler.Layout.Agreement.{
  next_address, next_address_item, item_address-place, get-place, addr-write_item,
}

contains_before :
    (names : List String) (more name : String)
    → contains names name ≡ true
    → contains (names ++ (more ∷ [])) name ≡ true
contains_before names more name at = ground (arith, contains-append names more name, at)

contains_last : (names : List String) (name : String) → contains (names ++ (name ∷ [])) name ≡ true
contains_last names name = ground (arith, contains-append names name name, eq_iff name name)

module _ ⦃host : Host⦄ ⦃disk : Disk⦄ where
  -- The labels before the items get the address of the next one that is no label.
  get-first_pass :
      (items : List Item) (names : List String) (layout : Layout) (seen : List String)
      (name : String) {final : Layout}
      → Known layout names seen
      → no_redefinition items seen ≡ true
      → contains names name ≡ true
      → first_pass items names layout ≡ ok final
      → (a : ℕ) × (next_address items layout.addr ≡ ok a) × (get final.labels name ≡ some a)
  unfolding first_pass next_address
  get-first_pass [] names layout seen name known fresh at h =
      let (labels, first, result) = ok->>= (assign names layout.labels layout.addr) h in
      (
        layout.addr,
        refl,
        ap (λ (l : Layout). get l.labels name) (sym (ok-injective result))
            ∙ get-assign names layout.labels layout.addr name first at,
      )
  get-first_pass (item ∷ items) names layout seen name {final} known fresh at h =
      let (once, later) = no_redefinition-cons item items seen fresh in
      elim (label-cases item) [
        | inl (more, same) ↦
            let (a, address, value) =
              get-first_pass items (names ++ (more ∷ [])) layout (more ∷ seen) name {final = final}
                (label-Known names layout seen more known)
                (subst (λ i. no_redefinition items (with_name i seen) ≡ true) (sym same) later)
                (contains_before names more name at)
                (subst (λ i. first_pass (i ∷ items) names layout ≡ ok final) (sym same) h) in
            (a, ap (λ i. next_address (i ∷ items) layout.addr) (sym same) ∙ address, value)
        | inr other ↦
            let (placed, next, first, second, rest) =
              first_pass-Step item items names layout other h in
            let (grows, still) = Step-Known item names layout seen known once first second in
            let (a, address, value) = get-place names item layout name at first in
            (
              a,
              next_address_item item items layout.addr other ∙ address,
              first_pass-Extends items [] next (with_name item seen) still later rest name a
                  (grows name a value),
            )
      ]

  second_pass-append :
      (labels : Labels) (before after : List Item) (written : Written) {last : Written}
      → second_pass labels (before ++ after) written ≡ ok last
      → (middle : Written) × (second_pass labels before written ≡ ok middle)
        × (second_pass labels after middle ≡ ok last)
  unfolding second_pass
  second_pass-append labels [] after written h = (written, refl, h)
  second_pass-append labels (item ∷ before) after written h =
      let (next, first, rest) = ok->>= (write_item labels item written) h in
      let (middle, second, third) = second_pass-append labels before after next rest in
      (middle, rw first second, third)

  -- The labels of a prefix of the items, when the second pass is done with it.
  label_position :
      (before after : List Item) (name : String) (names : List String) (layout : Layout)
      (seen : List String) (written : Written) {final : Layout} {later : Written}
      → Known layout names seen
      → no_redefinition (before ++ (label name ∷ after)) seen ≡ true
      → written.addr ≡ layout.addr
      → first_pass (before ++ (label name ∷ after)) names layout ≡ ok final
      → second_pass final.labels before written ≡ ok later
      → (a : ℕ) × (next_address after later.addr ≡ ok a) × (get final.labels name ≡ some a)
  unfolding second_pass first_pass write_item
  label_position [] after name names layout seen written {final} known fresh start h k =
      let (once, rest) = no_redefinition-cons (label name) after seen fresh in
      let (a, address, value) =
        get-first_pass after (names ++ (name ∷ [])) layout (name ∷ seen) name {final = final}
          (label-Known names layout seen name known) rest (contains_last names name) h in
      let here = sym start ∙ ap (λ (w : Written). w.addr) (ok-injective k) in
      (a, ap (next_address after) (sym here) ∙ address, value)
  label_position (item ∷ before) after name names layout seen written {final} {later} known fresh
        start h k =
      let (once, rest) = no_redefinition-cons item (before ++ (label name ∷ after)) seen fresh in
      elim (label-cases item) [
        | inl (more, same) ↦
            label_position before after name (names ++ (more ∷ [])) layout (more ∷ seen) written
              {final = final} {later = later} (label-Known names layout seen more known)
              (subst
                (λ i. no_redefinition (before ++ (label name ∷ after)) (with_name i seen) ≡ true)
                (sym same) rest)
              start
              (subst
                (λ i. first_pass (i ∷ (before ++ (label name ∷ after))) names layout ≡ ok final)
                (sym same) h)
              (subst (λ i. second_pass final.labels (i ∷ before) written ≡ ok later) (sym same) k)
        | inr other ↦
            let (placed, next, first, second, third) =
              first_pass-Step item (before ++ (label name ∷ after)) names layout other h in
            let (grows, still) = Step-Known item names layout seen known once first second in
            let (output, here, there) = ok->>= (write_item final.labels item written) k in
            let further =
              first_pass-Extends (before ++ (label name ∷ after)) [] next (with_name item seen)
                still rest third in
            let place_same =
              item_address-place names item layout first ∙ ap (item_address item) (sym start) in
            let moved =
              addr-write_item item placed written final.labels
                (λ known_name value at. further known_name value (grows known_name value at))
                place_same second here in
            label_position before after name [] next (with_name item seen) output still rest
              (sym moved) third there
      ]

  nothing-Within : Within initial_layout.labels []
  unfolding get
  nothing-Within name value known = cc

  -- When a source file is assembled and no `.def` gives a name that stands further up, every
  -- label has the address that the second pass has reached once it is done with the items before
  -- the label, aligned where the next item that is no label is an instruction.
  pub labels-second_pass :
      (before after : List Item) (name : String) {output : File}
      → no_redefinition (before ++ (label name ∷ after)) [] ≡ true
      → assemble (before ++ (label name ∷ after)) ≡ ok output
      → (layout : Layout) × (start : File) × (written : Written) × (address : ℕ) × (first_pass
            (before ++ (label name ∷ after))
            []
            initial_layout
          ≡ ok layout)
        × (second_pass layout.labels before (record { addr = 0; file = start }) ≡ ok written)
        × (next_address after written.addr ≡ ok address)
        × (get layout.labels name ≡ some address)
  unfolding assemble
  labels-second_pass before after name fresh h =
      let items = before ++ (label name ∷ after) in
      let (layout, first, rest) = ok->>= (first_pass items [] initial_layout) h in
      let (start, opening, writing) = ok->>= (opened created) rest in
      let initial : Written = record { addr = 0; file = start } in
      let (last, writes, _) = ok->>= (second_pass layout.labels items initial) writing in
      let (written, second, _) =
        second_pass-append layout.labels before (label name ∷ after) initial writes in
      let (address, next, value) =
        label_position before after name [] initial_layout [] initial
          ((nothing-Within), Contained-nil []) fresh refl first second in
      (layout, start, written, address, first, second, next, value)
