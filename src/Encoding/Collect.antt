-- ===== src/Encoding/Collect.antt =====
-- `collect_into_array` of acca-emu-proc-macro/src/util.rs: how the bits of an encoding become an
-- array. A slot of the array is `none` as long as nothing is written to it.
use acca.Prelude.{
  ℕ, zero, suc, ◌+◌, Option, none, some, List, [], ◌∷◌, ◌++◌, map, length, take, set, replicate,
  append_assoc, length-append, le→leb, Bool, false, leb, if◌then◌else◌, ◌≡◌, refl, sym, ap, ◌∙◌,
  arith,
}

-- The array, or `None` with the elements that were dropped. `undefined` is the use of a slot that
-- holds nothing.
pub data Collected (A : Type 0) : Type 0 where
  array dropped : List A → Collected A
  undefined : Collected A

-- `assume_init` on slots, or `assume_init_drop`.
unfoldable pub assume_init : {A : Type 0} → List (Option A) → Option (List A)
assume_init [] = some []
assume_init (none ∷ slots) = none
assume_init (some a ∷ slots) = elim (assume_init slots) [
  | none ↦ none
  | some rest ↦ some (a ∷ rest)
]

abbrev used : {A : Type 0} → (List A → Collected A) → Option (List A) → Collected A
used result none = undefined
used result (some elements) = result elements

-- The loop from `i` on, `n` rounds before its end. The iterator is the list of what it gives.
unfoldable pub collect : {A : Type 0} → ℕ → ℕ → List A → List (Option A) → Collected A
collect i zero items arr = used array (assume_init arr)
collect i (suc n) [] arr = used dropped (assume_init (take i arr))
collect i (suc n) (item ∷ items) arr = collect (i + 1) n items (set arr i (some item))

unfoldable pub collect_into_array : {A : Type 0} → ℕ → List A → Collected A
collect_into_array len items = collect 0 len items (replicate len none)

abbrev written : {A : Type 0} → List A → List (Option A)
written elements = map some elements

append_none : {B : Type 0} (slots : List B) → slots ++ [] ≡ slots
append_none [] = refl
append_none (slot ∷ slots) = ap (λ l. slot ∷ l) (append_none slots)

leb-zero : (n : ℕ) → false ≡ leb (suc n) 0
leb-zero n = ground arith

leb-suc : (n m : ℕ) → leb (suc n) (suc m) ≡ leb n m
leb-suc n m = ground arith

if_cong :
    {A : Type 0} {b b' : Bool} {x x' y y' : A}
    → b ≡ b'
    → x ≡ x'
    → y ≡ y'
    → (if b then x else y) ≡ (if b' then x' else y')
if_cong hb hx hy = rw (hb, hx, hy) refl

module _ {A : Type 0} where
  assume_init-written : (elements : List A) → assume_init (written elements) ≡ some elements
  unfolding assume_init
  assume_init-written [] = refl
  assume_init-written (a ∷ elements) = rw (assume_init-written elements) refl

  take-written :
      (elements : List A) (slots : List (Option A))
      → take (length elements) (written elements ++ slots) ≡ written elements
  take-written [] slots = refl
  take-written (a ∷ elements) slots = ap (λ l. some a ∷ l) (take-written elements slots)

  set-written :
      (elements : List A) (item : A) (slots : List (Option A))
      → set (written elements ++ (none ∷ slots)) (length elements) (some item)
        ≡ written (elements ++ (item ∷ [])) ++ slots
  set-written [] item slots = refl
  set-written (a ∷ elements) item slots = ap (λ l. some a ∷ l) (set-written elements item slots)

  -- The result, when these elements are written already.
  abbrev result : ℕ → List A → List A → Collected A
  result n elements items =
      if leb n (length items) then array (elements ++ take n items) else dropped (elements ++ items)

  collect-written :
      (n : ℕ) (elements items : List A)
      → collect (length elements) n items (written elements ++ replicate n none)
        ≡ result n elements items
  unfolding collect
  collect-written zero elements items =
      ap (λ l. used array (assume_init l)) (append_none (written elements))
      ∙ ap (used array) (assume_init-written elements)
      ∙ if_cong (sym (le→leb 0 (length items) (omega arith)))
          (ap array (sym (append_none elements))) refl
  collect-written (suc n) elements [] =
      ap (λ l. used dropped (assume_init l)) (take-written elements (none ∷ replicate n none))
      ∙ ap (used dropped) (assume_init-written elements)
      ∙ if_cong (leb-zero n) refl (ap dropped (sym (append_none elements)))
  collect-written (suc n) elements (item ∷ items) =
      let more = elements ++ (item ∷ []) in
      ap (collect (length elements + 1) n items) (set-written elements item (replicate n none))
      ∙ ap (λ (i : ℕ). collect i n items (written more ++ replicate n none))
          {x = length elements + 1} {y = length more}
          (omega (arith, length-append elements (item ∷ [])))
      ∙ collect-written n more items
      ∙ if_cong (sym (leb-suc n (length items)))
          (ap array (append_assoc elements (item ∷ []) (take n items)))
          (ap dropped (append_assoc elements (item ∷ []) items))

  -- `collect_into_array` never uses a slot that holds nothing. It gives the first `len` elements of
  -- an iterator that has as many, and else `None`, after it has dropped each element that the
  -- iterator gave once.
  pub collect_into_array-take :
      (len : ℕ) (items : List A)
      → collect_into_array len items
        ≡ (if leb len (length items) then array (take len items) else dropped items)
  unfolding collect_into_array
  collect_into_array-take len items = collect-written len [] items
