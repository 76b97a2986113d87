-- ===== src/Assembler/Layout/Duplicates.antt =====
-- Names that cannot be assigned.
use Prim.Native.String.{String}
use text.Mathlib.Text.{◌==◌ as ◌is◌}
use text.Mathlib.TextEquality.{eq_iff}
use mathlib.Core.Bool.{false≢true}
use acca.Prelude.{
  ℕ, ◌≡◌, ap, ◌∙◌, sym, ◌⊎◌, inl, inr, Bool, true, false, some, List, [], ◌∷◌, ◌++◌, arith,
  Bool-cases, if◌then◌else◌,
}
use acca.Assembler.Outcome.{ok, ok->>=}
use acca.Assembler.Immediate.{Labels, get}
use acca.Assembler.Layout.Labels.{insert_new, assign}
use acca.Assembler.Layout.Extension.{get-insert_self, get-insert_other}
use acca.Assembler.Layout.Names.{contains, insert_new-ok}
use acca.Assembler.Layout.Loop.{contains-append}

abbrev pub twice : List String → String → Bool
twice [] name = false
twice (other ∷ names) name =
    let rest = twice names name in if other is name then contains names name else rest

abbrev pub IsKnown : Labels → String → Type 0
IsKnown labels name = (value : ℕ) × (get labels name ≡ some value)

-- The names cannot be assigned: one is known already, or stands twice.
abbrev pub Doomed : List String → Labels → String → Type 0
Doomed names labels name =
    (IsKnown labels name × (contains names name ≡ true)) ⊎ (twice names name ≡ true)

-- A name that is known already cannot be assigned.
assign-known :
    (names : List String) (labels : Labels) (addr : ℕ) (name : String) {more : Labels}
    → IsKnown labels name
    → contains names name ≡ true
    → assign names labels addr ≡ ok more
    → ⊥
unfolding assign
assign-known [] labels addr name known at h = absurd (false≢true at)
assign-known (other ∷ names) labels addr name (value, known) at h =
    let (extended, first, rest) = ok->>= (insert_new (get labels other) labels other addr) h in
    let (fresh, same) = insert_new-ok (get labels other) labels other addr first in
    elim (Bool-cases (other is name)) [
      | inl here ↦
          let both = ap (get labels) ((eq_iff other name).0 here) in
          let clash = sym known ∙ (sym both ∙ fresh) in cc
      | inr elsewhere ↦
          assign-known names extended addr name
            (
              value,
              ap (λ l. get l name) (sym same)
                  ∙ (get-insert_other labels other name addr elsewhere ∙ known),
            )
            (ground (arith, at, elsewhere)) rest
    ]

-- A name that stands twice cannot be assigned.
assign-twice :
    (names : List String) (labels : Labels) (addr : ℕ) (name : String) {more : Labels}
    → twice names name ≡ true
    → assign names labels addr ≡ ok more
    → ⊥
unfolding assign
assign-twice [] labels addr name at h = absurd (false≢true at)
assign-twice (other ∷ names) labels addr name at h =
    let (extended, first, rest) = ok->>= (insert_new (get labels other) labels other addr) h in
    let (fresh, same) = insert_new-ok (get labels other) labels other addr first in
    elim (Bool-cases (other is name)) [
      | inl here ↦
          let inserted = get-insert_self labels other addr in
          let found = ap (get extended) (sym ((eq_iff other name).0 here)) in
          assign-known names extended addr name
            (addr, found ∙ (ap (λ l. get l other) (sym same) ∙ inserted)) (ground (arith, at, here))
            rest
      | inr elsewhere ↦ assign-twice names extended addr name (ground (arith, at, elsewhere)) rest
    ]

pub assign-Doomed :
    (names : List String) (labels : Labels) (addr : ℕ) (name : String) {more : Labels}
    → Doomed names labels name
    → assign names labels addr ≡ ok more
    → ⊥
assign-Doomed names labels addr name (inl (known, at)) h =
    assign-known names labels addr name known at h
assign-Doomed names labels addr name (inr at) h = assign-twice names labels addr name at h

pub Doomed-append :
    (names : List String) (labels : Labels) (more name : String)
    → Doomed names labels name
    → Doomed (names ++ (more ∷ [])) labels name
Doomed-append names labels more name (inl (known, at)) =
    inl (known, ground (arith, contains-append names more name, at))
Doomed-append names labels more name (inr at) = inr (twice-append names more name at)
  where
    twice-append :
        (names : List String) (more name : String)
        → twice names name ≡ true
        → twice (names ++ (more ∷ [])) name ≡ true
    twice-append [] more name h = absurd (false≢true h)
    twice-append (other ∷ names) more name h = elim (Bool-cases (other is name)) [
      | inl here ↦ ground (arith, contains-append names more name, h, here)
      | inr elsewhere ↦
          ground (arith, twice-append names more name (ground (arith, h, elsewhere)), elsewhere)
    ]
