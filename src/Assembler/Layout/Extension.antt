-- ===== src/Assembler/Layout/Extension.antt =====
-- Names that are added to the map of the labels change no value that was known before.
use Prim.Native.String.{String}
use text.Mathlib.Text.{◌==◌ as ◌is◌}
use text.Mathlib.TextEquality.{eq_iff}
use acca.Prelude.{
  ℕ, ◌≡◌, ap, ◌∙◌, sym, false, Option, none, some, [], ◌∷◌, arith, Bool-cases, Option-cases, ◌≢◌,
  inl, inr,
}
use acca.Assembler.Outcome.{ok, ok->>=}
use acca.Assembler.Syntax.{Immediate}
use acca.Assembler.Immediate.{Labels, get, insert, label_address, evaluate, evaluate_immediate}

-- All that the first map knows, the second knows too.
abbrev pub Extends : Labels → Labels → Type 0
Extends labels more =
    (name : String) (value : ℕ) → get labels name ≡ some value → get more name ≡ some value

pub get-insert_self :
    (labels : Labels) (name : String) (value : ℕ) → get (insert labels name value) name ≡ some value
unfolding get insert
get-insert_self [] name value = ground (arith, eq_iff name name)
get-insert_self ((label, old) ∷ labels) name value =
    ground (arith, eq_iff label name, get-insert_self labels name value)

pub get-insert_other :
    (labels : Labels) (name other : String) (value : ℕ)
    → (name is other) ≡ false
    → get (insert labels name value) other ≡ get labels other
unfolding get insert
get-insert_other [] name other value h = ground (arith)
get-insert_other ((label, old) ∷ labels) name other value h = ground (
  arith,
  eq_iff label name,
  eq_iff label other,
  eq_iff name other,
  get-insert_other labels name other value h,
)

none≢some :
    (labels : Labels) (name other : String) {old : ℕ}
    → get labels name ≡ none
    → get labels other ≡ some old
    → name ≢ other
none≢some labels name other fresh known same = let both = ap (get labels) same in cc

pub insert-Extends :
    (labels : Labels) (name : String) (value : ℕ)
    → get labels name ≡ none
    → Extends labels (insert labels name value)
insert-Extends labels name value fresh other old known = elim (Bool-cases (name is other)) [
  | inl same ↦ absurd (none≢some labels name other fresh known ((eq_iff name other).0 same))
  | inr differs ↦ get-insert_other labels name other value differs ∙ known
]

label_address-Extends :
    (labels more : Labels) (name : String) {value : ℕ}
    → Extends labels more
    → label_address (get labels name) ≡ ok value
    → label_address (get more name) ≡ ok value
unfolding label_address
label_address-Extends labels more name extends h = elim (Option-cases (get labels name)) [
  | inl unknown ↦ let exits = ap label_address unknown in cc
  | inr (old, known) ↦
      let here = ap label_address known in
      ap label_address (extends name old known) ∙ (sym here ∙ h)
]

evaluate-Extends :
    (labels more : Labels) (current : ℕ) (imm : Immediate) {value : ℕ}
    → Extends labels more
    → evaluate labels current imm ≡ ok value
    → evaluate more current imm ≡ ok value
unfolding evaluate
evaluate-Extends labels more current (Immediate.ident name) extends h =
    label_address-Extends labels more name extends h
evaluate-Extends labels more current (Immediate.immediate inner) extends h =
    evaluate-Extends labels more current inner extends h
evaluate-Extends labels more current (Immediate.prefix op operand) extends h =
    let (rhs, first, rest) = ok->>= (evaluate labels current operand) h in
    rw (evaluate-Extends labels more current operand extends first) rest
evaluate-Extends labels more current (Immediate.infix_op left op right) extends h =
    let (lhs, first, rest) = ok->>= (evaluate labels current left) h in
    let (rhs, second, result) = ok->>= (evaluate labels current right) rest in
    rw
      (
        evaluate-Extends labels more current left extends first,
        evaluate-Extends labels more current right extends second,
      )
      result
evaluate-Extends labels more current (Immediate.integer literal) extends h = h
evaluate-Extends labels more current (Immediate.boolean text) extends h = h
evaluate-Extends labels more current (Immediate.machine_register_literal text) extends h = h
evaluate-Extends labels more current Immediate.current_address extends h = h
evaluate-Extends labels more current (Immediate.normal_char char) extends h = h
evaluate-Extends labels more current (Immediate.escaped_char char) extends h = h

pub evaluate_immediate-Extends :
    (labels more : Labels) (current : ℕ) (imm : Immediate) (relative : Option ℕ) {value : ℕ}
    → Extends labels more
    → evaluate_immediate imm labels current relative ≡ ok value
    → evaluate_immediate imm more current relative ≡ ok value
unfolding evaluate_immediate
evaluate_immediate-Extends labels more current imm relative extends h =
    let (result, first, rest) = ok->>= (evaluate labels current imm) h in
    rw (evaluate-Extends labels more current imm extends first) rest
