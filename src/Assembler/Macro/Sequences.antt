-- ===== src/Assembler/Macro/Sequences.antt =====
-- `instructions!` on the table of acca-as/src/main.rs.
use acca.Prelude.{
  Bool, true, false, List, [], ◌∷◌, map, Bool-cases, inl, inr, ◌≡◌, refl, sym, ap, ◌∙◌, ◌==◌,
  if◌then◌else◌, arith,
}
use acca.Assembler.Instructions.Rules.{InstructionRule}
use acca.Assembler.Instructions.{template}
use acca.Assembler.Macro.Tokens.{
  alone, Token, ident, literal, punct, group, Tokens, end, ◌▸◌, ◌++◌, done,
}
use acca.Assembler.Macro.Header.{Litrs}
use acca.Assembler.Macro.Expansion.{instruction_sequences, instruction_arms, instructions}
use acca.Assembler.Macro.Table.{instruction_tokens, rule_name, tokens_of}
use acca.Assembler.Macro.Templates.{instruction_arm-instruction_tokens}

-- Whether a `;` stands among tokens, outside the groups.
abbrev has_semicolon : Tokens → Bool
has_semicolon end = false
has_semicolon (punct char spacing ▸ rest) = if char == b';' then true else has_semicolon rest
has_semicolon (token ▸ rest) = has_semicolon rest

append_assoc : (xs ys zs : Tokens) → (xs ++ ys) ++ zs ≡ xs ++ (ys ++ zs)
append_assoc end ys zs = refl
append_assoc (token ▸ xs) ys zs = ap (λ ts. token ▸ ts) (append_assoc xs ys zs)

append_end : (xs : Tokens) → xs ++ end ≡ xs
append_end end = refl
append_end (token ▸ xs) = ap (λ ts. token ▸ ts) (append_end xs)

-- A sequence with a token in front of it, behind tokens.
next_token :
    (token : Token) (tokens sequence : Tokens) {list more : List Tokens}
    → list ≡ ((tokens ++ (token ▸ end)) ++ sequence) ∷ more
    → list ≡ (tokens ++ (token ▸ sequence)) ∷ more
next_token token tokens sequence {list} {more} h =
    h ∙ ap (λ ts. ts ∷ more) (append_assoc tokens (token ▸ end) sequence)

-- A sequence without a `;` is split off whole.
instruction_sequences-append :
    (sequence rest tokens : Tokens)
    → has_semicolon sequence ≡ false
    → instruction_sequences (sequence ++ (punct b';' alone ▸ rest)) tokens
      ≡ (tokens ++ sequence) ∷ instruction_sequences rest end
unfolding instruction_sequences
instruction_sequences-append end rest tokens h =
    ap (λ ts. ts ∷ instruction_sequences rest end) (sym (append_end tokens))
instruction_sequences-append (punct char spacing ▸ sequence) rest tokens h =
    elim (Bool-cases (char == b';')) [
      | inl e ↦ grind arith
      | inr e ↦
          let plain : has_semicolon sequence ≡ false = ground arith in
          let split = next_token (punct char spacing) tokens sequence (
            instruction_sequences-append sequence rest (tokens ++ (punct char spacing ▸ end))
              plain) in
          ground arith
    ]
instruction_sequences-append (ident name ▸ sequence) rest tokens h =
    next_token (ident name) tokens sequence
      (instruction_sequences-append sequence rest (tokens ++ (ident name ▸ end)) h)
instruction_sequences-append (literal lit ▸ sequence) rest tokens h =
    next_token (literal lit) tokens sequence
      (instruction_sequences-append sequence rest (tokens ++ (literal lit ▸ end)) h)
instruction_sequences-append (group delimiter inner ▸ sequence) rest tokens h =
    next_token (group delimiter inner) tokens sequence
      (instruction_sequences-append sequence rest (tokens ++ (group delimiter inner ▸ end)) h)

instruction_tokens-has_semicolon :
    (rule : InstructionRule) → has_semicolon (instruction_tokens rule) ≡ false
unfolding instruction_tokens
instruction_tokens-has_semicolon InstructionRule.pushs = refl
instruction_tokens-has_semicolon InstructionRule.pushp = refl
instruction_tokens-has_semicolon InstructionRule.pops = refl
instruction_tokens-has_semicolon InstructionRule.popp = refl
instruction_tokens-has_semicolon InstructionRule.lds = refl
instruction_tokens-has_semicolon InstructionRule.ldp = refl
instruction_tokens-has_semicolon InstructionRule.sts = refl
instruction_tokens-has_semicolon InstructionRule.stp = refl
instruction_tokens-has_semicolon InstructionRule.ldi = refl
instruction_tokens-has_semicolon InstructionRule.ldr = refl
instruction_tokens-has_semicolon InstructionRule.copy = refl
instruction_tokens-has_semicolon InstructionRule.add_reg = refl
instruction_tokens-has_semicolon InstructionRule.add_imm = refl
instruction_tokens-has_semicolon InstructionRule.sub_reg = refl
instruction_tokens-has_semicolon InstructionRule.sub_imm = refl
instruction_tokens-has_semicolon InstructionRule.mul = refl
instruction_tokens-has_semicolon InstructionRule.div = refl
instruction_tokens-has_semicolon InstructionRule.and_reg = refl
instruction_tokens-has_semicolon InstructionRule.and_imm = refl
instruction_tokens-has_semicolon InstructionRule.or_reg = refl
instruction_tokens-has_semicolon InstructionRule.or_imm = refl
instruction_tokens-has_semicolon InstructionRule.xor_reg = refl
instruction_tokens-has_semicolon InstructionRule.xor_imm = refl
instruction_tokens-has_semicolon InstructionRule.shl = refl
instruction_tokens-has_semicolon InstructionRule.shr = refl
instruction_tokens-has_semicolon InstructionRule.rot = refl
instruction_tokens-has_semicolon InstructionRule.neg = refl
instruction_tokens-has_semicolon InstructionRule.bswap = refl
instruction_tokens-has_semicolon InstructionRule.soc = refl
instruction_tokens-has_semicolon InstructionRule.sof = refl
instruction_tokens-has_semicolon InstructionRule.jmpa = refl
instruction_tokens-has_semicolon InstructionRule.jmpr = refl
instruction_tokens-has_semicolon InstructionRule.cjmpa = refl
instruction_tokens-has_semicolon InstructionRule.cjmpr = refl
instruction_tokens-has_semicolon InstructionRule.calla = refl
instruction_tokens-has_semicolon InstructionRule.callr = refl
instruction_tokens-has_semicolon InstructionRule.ret = refl
instruction_tokens-has_semicolon InstructionRule.eret = refl
instruction_tokens-has_semicolon InstructionRule.udf = refl
instruction_tokens-has_semicolon InstructionRule.dbg = refl
instruction_tokens-has_semicolon InstructionRule.exc = refl
instruction_tokens-has_semicolon InstructionRule.nop = refl
instruction_tokens-has_semicolon InstructionRule.ldm = refl
instruction_tokens-has_semicolon InstructionRule.stm = refl
instruction_tokens-has_semicolon InstructionRule.pseudo_cmp_reg = refl
instruction_tokens-has_semicolon InstructionRule.pseudo_cmp_imm = refl

-- The splitting of a part of the table gives the tokens of its instructions.
instruction_sequences-tokens_of :
    (list : List InstructionRule)
    → instruction_sequences (tokens_of list) end ≡ map instruction_tokens list
unfolding instruction_sequences
instruction_sequences-tokens_of [] = refl
instruction_sequences-tokens_of (rule ∷ list) =
    instruction_sequences-append (instruction_tokens rule) (tokens_of list) end
      (instruction_tokens-has_semicolon rule)
    ∙ ap (λ ts. instruction_tokens rule ∷ ts) (instruction_sequences-tokens_of list)

instruction_arms-instruction_tokens :
    ⦃litrs : Litrs⦄ (list : List InstructionRule)
    → instruction_arms (map instruction_tokens list)
      ≡ done (map (λ rule. (rule_name rule, template rule)) list)
instruction_arms-instruction_tokens [] = refl
instruction_arms-instruction_tokens (rule ∷ list) =
    rw (instruction_arm-instruction_tokens rule, instruction_arms-instruction_tokens list)

-- From the tokens of a list of the source's instructions, each followed by `;`, `instructions!`
-- makes for each instruction, in this order, the arm of its rule with the template of that rule.
pub instructions-tokens_of :
    ⦃litrs : Litrs⦄ (list : List InstructionRule)
    → instructions (tokens_of list) ≡ done (map (λ rule. (rule_name rule, template rule)) list)
unfolding instructions
instructions-tokens_of list =
    ap instruction_arms (instruction_sequences-tokens_of list)
    ∙ instruction_arms-instruction_tokens list
