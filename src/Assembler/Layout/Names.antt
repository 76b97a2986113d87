-- ===== src/Assembler/Layout/Names.antt =====
-- The names that a source file defines, and what the first pass knows of them.
use Prim.Native.String.{String}
use text.Mathlib.Text.{◌==◌ as ◌is◌}
use text.Mathlib.TextEquality.{eq_iff}
use mathlib.Core.Path.{subst}
use acca.Prelude.{
  ℕ, ◌≡◌, refl, ◌∙◌, sym, inl, inr, Bool, true, false, not, ◌&&◌, ◌||◌, Option, none, some, List,
  [], ◌∷◌, arith, Bool-cases,
}
use acca.Assembler.Outcome.{ok, ok->>=, ok-injective}
use acca.Assembler.Immediate.{Labels, get, insert}
use acca.Assembler.Layout.Items.{Item, label, directive_def}
use acca.Assembler.Layout.Labels.{insert_new, assign}
use acca.Assembler.Layout.Extension.{Extends, get-insert_self, get-insert_other, insert-Extends}

abbrev pub contains : List String → String → Bool
contains [] name = false
contains (other ∷ names) name = (other is name) || contains names name

abbrev pub with_name : Item → List String → List String
with_name (label name) seen = name ∷ seen
with_name (directive_def name imm) seen = name ∷ seen
with_name _ seen = seen

abbrev pub redefines : Item → List String → Bool
redefines (directive_def name imm) seen = contains seen name
redefines _ seen = false

-- No `.def` gives a name that stands further up, in a label or in a `.def`, or is in `seen`.
unfoldable pub no_redefinition : List Item → List String → Bool
no_redefinition [] seen = true
no_redefinition (item ∷ items) seen =
    not (redefines item seen) && no_redefinition items (with_name item seen)

-- Every name that has a value is one of the names.
abbrev pub Within : Labels → List String → Type 0
Within labels seen =
    (name : String) (value : ℕ) → get labels name ≡ some value → contains seen name ≡ true

abbrev pub Contained : List String → List String → Type 0
Contained names seen = (name : String) → contains names name ≡ true → contains seen name ≡ true

pub contains_here : (name : String) (names : List String) → contains (name ∷ names) name ≡ true
contains_here name names = ground (arith, eq_iff name name)

pub contains_further :
    (other : String) (names : List String) (name : String)
    → contains names name ≡ true
    → contains (other ∷ names) name ≡ true
contains_further other names name h = ground arith

pub insert_new-ok :
    (o : Option ℕ) (labels : Labels) (name : String) (addr : ℕ) {extended : Labels}
    → insert_new o labels name addr ≡ ok extended
    → (o ≡ none) × (insert labels name addr ≡ extended)
insert_new-ok none labels name addr h = (refl, ok-injective h)
insert_new-ok (some old) labels name addr h = cc

insert_new-Extends :
    (labels : Labels) (name : String) (addr : ℕ) {extended : Labels}
    → insert_new (get labels name) labels name addr ≡ ok extended
    → Extends labels extended
insert_new-Extends labels name addr h =
    let (fresh, same) = insert_new-ok (get labels name) labels name addr h in
    rw (sym same) (insert-Extends labels name addr fresh)

pub assign-Extends :
    (names : List String) (labels : Labels) (addr : ℕ) {more : Labels}
    → assign names labels addr ≡ ok more
    → Extends labels more
unfolding assign
assign-Extends [] labels addr h name value known = rw (sym (ok-injective h)) known
assign-Extends (name ∷ names) labels addr h other value known =
    let (extended, first, rest) = ok->>= (insert_new (get labels name) labels name addr) h in
    assign-Extends names extended addr rest other value
      (insert_new-Extends labels name addr first other value known)

-- Each of the names gets the address.
pub get-assign :
    (names : List String) (labels : Labels) (addr : ℕ) (name : String) {more : Labels}
    → assign names labels addr ≡ ok more
    → contains names name ≡ true
    → get more name ≡ some addr
unfolding assign
get-assign [] labels addr name h at = cc
get-assign (other ∷ names) labels addr name h at =
    let (extended, first, rest) = ok->>= (insert_new (get labels other) labels other addr) h in
    let (fresh, same) = insert_new-ok (get labels other) labels other addr first in
    elim (Bool-cases (other is name)) [
      | inl here ↦
          assign-Extends names extended addr rest name addr
            (rw (sym same, sym ((eq_iff other name).0 here)) (get-insert_self labels other addr))
      | inr elsewhere ↦ get-assign names extended addr name rest (cc (elsewhere, at))
    ]

pub Within-insert :
    (labels : Labels) (name : String) (value : ℕ) (seen : List String)
    → Within labels seen
    → contains seen name ≡ true
    → Within (insert labels name value) seen
Within-insert labels name value seen within at other old known = elim (Bool-cases (name is other)) [
  | inl same ↦ rw (sym ((eq_iff name other).0 same)) at
  | inr differs ↦ within other old (sym (get-insert_other labels name other value differs) ∙ known)
]

pub assign-Within :
    (names : List String) (labels : Labels) (addr : ℕ) (seen : List String) {more : Labels}
    → assign names labels addr ≡ ok more
    → Within labels seen
    → Contained names seen
    → Within more seen
unfolding assign
assign-Within [] labels addr seen h within contained other old known =
    within other old (rw (ok-injective h) known)
assign-Within (name ∷ names) labels addr seen h within contained other old known =
    let (extended, first, rest) = ok->>= (insert_new (get labels name) labels name addr) h in
    let (fresh, same) = insert_new-ok (get labels name) labels name addr first in
    let inserted =
      Within-insert labels name addr seen within (contained name (contains_here name names)) in
    assign-Within names extended addr seen rest (subst (λ l. Within l seen) same inserted)
      (λ found at. contained found (contains_further name names found at)) other old known
