-- ===== src/Assembler/Instructions/Encoded.antt =====
-- The words of an instruction's block, encoded with the encodings of the arms that accept the
-- arguments.
use mathlib.Core.Path.{subst}
use acca.Prelude.{
  ℕ, true, false, Option, none, some, List, [], ◌∷◌, ◌++◌, ◌≡◌, refl, sym, ap, ◌∙◌, ◌==◌, inl, inr,
  Bool-cases,
}
use acca.Encoding.Scan.{InstructionBit, encode}
use acca.Assembler.Outcome.{ok, panicked, ◌>>=◌, ok->>=, ok-injective}
use acca.Assembler.Registers.{Argument}
use acca.Assembler.Template.{
  ArgumentSpec, Pattern, Arm, Body, bracketed, braced, Arguments, Variables,
}
use acca.Assembler.Template.Writing.{
  default_pattern, accepts, accepts_any, accepts_all, argument_of, argument_values, value_of,
  size_variables, arm_word, arm_words, body_words,
}
use acca.Assembler.Instructions.Opcodes.{
  same_pattern, kind_of, allows_any, allows_all, chosen_arms, chosen,
}
use acca.Assembler.Instructions.Allowed.{kind, kinds}

accepts-kind :
    (p : Pattern) (argument : Option Argument) → accepts p argument ≡ same_pattern p (kind argument)
accepts-kind Pattern.reg none = refl
accepts-kind Pattern.reg (some (Argument.register found)) = refl
accepts-kind Pattern.reg (some (Argument.immediate value)) = refl
accepts-kind Pattern.null none = refl
accepts-kind Pattern.null (some (Argument.register found)) = refl
accepts-kind Pattern.null (some (Argument.immediate value)) = refl
accepts-kind Pattern.imm none = refl
accepts-kind Pattern.imm (some (Argument.register found)) = refl
accepts-kind Pattern.imm (some (Argument.immediate value)) = refl

accepts_any-kind :
    (patterns : List Pattern) (argument : Option Argument)
    → accepts_any patterns argument ≡ allows_any patterns (kind argument)
accepts_any-kind [] argument = refl
accepts_any-kind (pattern_ ∷ patterns) argument =
    rw (accepts-kind pattern_ argument, accepts_any-kind patterns argument) refl

kind-argument_of :
    (arguments : Arguments) (name : ℕ)
    → kind (argument_of arguments name) ≡ kind_of (kinds arguments) name
kind-argument_of [] name = refl
kind-argument_of ((other, argument) ∷ arguments) name = elim (Bool-cases (other == name)) [
  | inl same ↦ rw same refl
  | inr differs ↦ rw differs (kind-argument_of arguments name)
]

accepts_all-kinds :
    (patterns : List (ℕ × List Pattern)) (arguments : Arguments)
    → accepts_all patterns arguments ≡ allows_all patterns (kinds arguments)
accepts_all-kinds [] arguments = refl
accepts_all-kinds ((name, patterns) ∷ rest) arguments =
    rw
      (
        accepts_any-kind patterns (argument_of arguments name),
        kind-argument_of arguments name,
        accepts_all-kinds rest arguments,
      )
      refl

-- The words are encoded with the encodings, one by one.
abbrev pub IsEncoded : List (List InstructionBit) → List ℕ → Type 0
IsEncoded [] words = words ≡ []
IsEncoded (bits ∷ encodings) words =
    (values : ℕ → ℕ) × (rest : List ℕ) × (words ≡ encode bits values ∷ rest)
    × IsEncoded encodings rest

-- The three steps of a body: an arm that accepts the arguments, one that does not, and an
-- encoding in brackets.
module _ (arguments : Arguments) (additional : Variables) where
  arm_words-accepted :
      (arm : Arm) (arms : List Arm)
      → accepts_all arm.patterns arguments ≡ true
      → arm_words (arm ∷ arms) arguments additional ≡ (
          arm_word arm arguments additional >>= λ word.
          arm_words arms arguments additional >>= λ words. ok (word ∷ words))
  unfolding arm_words
  arm_words-accepted arm arms accepted = rw (accepted, arm_words) refl

  arm_words-refused :
      (arm : Arm) (arms : List Arm)
      → accepts_all arm.patterns arguments ≡ false
      → arm_words (arm ∷ arms) arguments additional ≡ arm_words arms arguments additional
  unfolding arm_words
  arm_words-refused arm arms refused = rw (refused, arm_words) refl

  bracketed-accepted :
      (bits : List InstructionBit) (specs : List ArgumentSpec)
      → accepts_all (default_pattern specs) arguments ≡ true
      → body_words (bracketed bits) specs arguments additional
        ≡ ok (
            encode bits (value_of (argument_values (default_pattern specs) arguments ++ additional))
            ∷ [])
  unfolding body_words
  bracketed-accepted bits specs accepted = rw accepted refl

  bracketed-refused :
      (bits : List InstructionBit) (specs : List ArgumentSpec)
      → accepts_all (default_pattern specs) arguments ≡ false
      → body_words (bracketed bits) specs arguments additional ≡ panicked
  unfolding body_words
  bracketed-refused bits specs refused = rw refused refl

  arm_word-encode :
      (arm : Arm) {word : ℕ}
      → arm_word arm arguments additional ≡ ok word
      → (values : ℕ → ℕ) × (word ≡ encode arm.encoding values)
  unfolding arm_word
  arm_word-encode arm h =
      let (sizes, first, result) = ok->>= (size_variables arm.sizes arguments) h in
      (_, sym (ok-injective result))

  chosen-accepted :
      (arm : Arm) (arms : List Arm)
      → accepts_all arm.patterns arguments ≡ true
      → chosen_arms (arm ∷ arms) (kinds arguments)
        ≡ arm.encoding ∷ chosen_arms arms (kinds arguments)
  chosen-accepted arm arms accepted =
      let same = sym (accepts_all-kinds arm.patterns arguments) ∙ accepted in rw same refl

  chosen-refused :
      (arm : Arm) (arms : List Arm)
      → accepts_all arm.patterns arguments ≡ false
      → chosen_arms (arm ∷ arms) (kinds arguments) ≡ chosen_arms arms (kinds arguments)
  chosen-refused arm arms refused =
      let same = sym (accepts_all-kinds arm.patterns arguments) ∙ refused in rw same refl

  arm_words-IsEncoded :
      (arms : List Arm) {words : List ℕ}
      → arm_words arms arguments additional ≡ ok words
      → IsEncoded (chosen_arms arms (kinds arguments)) words
  unfolding arm_words
  arm_words-IsEncoded [] h = sym (ok-injective h)
  arm_words-IsEncoded (arm ∷ arms) {words} h =
      elim (Bool-cases (accepts_all arm.patterns arguments)) [
        | inl accepted ↦
            let whole = sym (arm_words-accepted arm arms accepted) ∙ h in
            let (word, first, others) = ok->>= (arm_word arm arguments additional) whole in
            let (rest, second, result) = ok->>= (arm_words arms arguments additional) others in
            let (values, same) = arm_word-encode arm first in
            subst (λ encodings. IsEncoded encodings words) (sym (chosen-accepted arm arms accepted))
              (
                values,
                rest,
                sym (ok-injective result) ∙ ap (λ w. w ∷ rest) same,
                arm_words-IsEncoded arms second,
              )
        | inr refused ↦
            subst (λ encodings. IsEncoded encodings words) (sym (chosen-refused arm arms refused))
              (arm_words-IsEncoded arms (sym (arm_words-refused arm arms refused) ∙ h))
      ]

  pub body_words-IsEncoded :
      (b : Body) (specs : List ArgumentSpec) {words : List ℕ}
      → body_words b specs arguments additional ≡ ok words
      → IsEncoded (chosen b specs (kinds arguments)) words
  unfolding body_words
  body_words-IsEncoded (braced arms) specs h = arm_words-IsEncoded arms h
  body_words-IsEncoded (bracketed bits) specs h =
      elim (Bool-cases (accepts_all (default_pattern specs) arguments)) [
        | inl accepted ↦
            (_, [], ok-injective (sym h ∙ bracketed-accepted bits specs accepted), refl)
        | inr refused ↦ let panics = sym h ∙ bracketed-refused bits specs refused in cc
      ]
