-- ===== src/Emu/Instruction/RoundTrip.antt =====
-- The encoder and the decoder agree on every instruction.
use mathlib.Core.Path.{fun_ext, subst}
use mathlib.Core.Bool.{and-eq-true_iff}
use mathlib.Core.Option.{some-injective}
use acca.Prelude.{
  ℕ, zero, suc, ◌%◌, ◌^◌, ◌≡◌, refl, ap, Bool, true, ◌&&◌, Option, none, some, List, [], ◌∷◌, all,
}
use acca.Encoding.Scan.{matches, encode}
use acca.Encoding.RoundTrip.{
  width, conflict, matches-encode, variable_value-encode, matches-conflict,
}
use acca.Emu.Instruction.Encodings.{Opcode, encoding, opcodes}
use acca.Emu.Instruction.Operands.{operands}
use acca.Emu.Instruction.Select.{first_match, select, decode}

abbrev get_elem? : List Opcode → ℕ → Option Opcode
get_elem? [] i = none
get_elem? (op ∷ ops) zero = some op
get_elem? (op ∷ ops) (suc i) = get_elem? ops i

-- The place of an arm in the source.
abbrev position : Opcode → ℕ
position Opcode.pushs = 0
position Opcode.pushp = 1
position Opcode.pops = 2
position Opcode.popp = 3
position Opcode.lds = 4
position Opcode.ldp = 5
position Opcode.sts = 6
position Opcode.stp = 7
position Opcode.ldi = 8
position Opcode.ldr = 9
position Opcode.copy = 10
position Opcode.add_reg = 11
position Opcode.add_imm = 12
position Opcode.sub_reg = 13
position Opcode.sub_imm = 14
position Opcode.mul = 15
position Opcode.div = 16
position Opcode.and_reg = 17
position Opcode.and_imm = 18
position Opcode.or_reg = 19
position Opcode.or_imm = 20
position Opcode.xor_reg = 21
position Opcode.xor_imm = 22
position Opcode.shl_reg = 23
position Opcode.shl_imm = 24
position Opcode.shr_reg = 25
position Opcode.shr_imm = 26
position Opcode.rot_reg = 27
position Opcode.rot_imm = 28
position Opcode.neg = 29
position Opcode.bswap = 30
position Opcode.soc = 31
position Opcode.sof = 32
position Opcode.jmpa = 33
position Opcode.jmpr_reg = 34
position Opcode.jmpr_imm = 35
position Opcode.cjmpa = 36
position Opcode.cjmpr_reg = 37
position Opcode.cjmpr_imm = 38
position Opcode.calla = 39
position Opcode.callr_reg = 40
position Opcode.callr_imm = 41
position Opcode.ret = 42
position Opcode.eret = 43
position Opcode.udf = 44
position Opcode.dbg = 45
position Opcode.exc = 46
position Opcode.nop = 47
position Opcode.ldm = 48
position Opcode.stm = 49

position_lem : (op : Opcode) → get_elem? opcodes (position op) ≡ some op
position_lem Opcode.pushs = refl
position_lem _ = refl

-- Every encoding conflicts with all that stand below it.
apart : List Opcode → Bool
apart [] = true
apart (op ∷ ops) = all (λ other. conflict (encoding op) (encoding other)) ops && apart ops

opcodes-apart : apart opcodes ≡ true
unfolding apart encoding
opcodes-apart = refl

all-get_elem? :
    (p : Opcode → Bool) (ops : List Opcode) (i : ℕ) {op : Opcode}
    → all p ops ≡ true
    → get_elem? ops i ≡ some op
    → p op ≡ true
all-get_elem? p [] i h at = cc
all-get_elem? p (op ∷ ops) zero h at =
    let (here, below) = (and-eq-true_iff _ _).0 h in
    subst (λ o. p o ≡ true) (some-injective _ _ at) here
all-get_elem? p (op ∷ ops) (suc i) h at = all-get_elem? p ops i ((and-eq-true_iff _ _).0 h).1 at

first_match_lem :
    (ops : List Opcode) (i : ℕ) {op : Opcode} (encoded : ℕ)
    → apart ops ≡ true
    → get_elem? ops i ≡ some op
    → matches (encoding op) encoded ≡ true
    → first_match ops encoded ≡ some op
unfolding apart first_match
first_match_lem [] i encoded h at m = cc
first_match_lem (op ∷ ops) zero {op = found} encoded h at m =
    let same : op ≡ found = some-injective _ _ at in rw (same, m)
first_match_lem (op ∷ ops) (suc i) {op = found} encoded h at m =
    let (others, rest) = (and-eq-true_iff _ _).0 h in
    let differs =
      all-get_elem? (λ other. conflict (encoding op) (encoding other)) ops i others at in
    rw (matches-conflict (encoding op) (encoding found) encoded differs m)
      (first_match_lem ops i encoded rest at m)

-- The arm whose guard an encoded word passes is the one that is run, so at most one arm's guard
-- can pass and the order of the arms does not matter.
pub select-matches :
    (op : Opcode) (encoded : ℕ) → matches (encoding op) encoded ≡ true → select encoded ≡ some op
unfolding select
select-matches op encoded m =
    first_match_lem opcodes (position op) encoded opcodes-apart (position_lem op) m

-- For every instruction and all operand values, the emulator recognises the word that the
-- assembler's macro builds from the instruction's encoding, and decodes it from the same operand
-- values, each cut to the width of its variable.
pub decode-encode :
    (op : Opcode) (values : ℕ → ℕ)
    → let encoded = encode (encoding op) values in
      (select encoded ≡ some op)
      × (decode op encoded
          ≡ operands op (λ name. values name % 2 ^ 32 % 2 ^ width name (encoding op)))
unfolding decode
decode-encode op values = (
  select-matches op _ (matches-encode (encoding op) values),
  ap (operands op) (fun_ext (λ name. variable_value-encode name (encoding op) values)),
)
