-- ===== src/Assembler/Operands.antt =====
-- The functions that read registers, sizes, conditions and arguments from the pairs of an
-- instruction.
use Prim.Native.String.{String}
use text.Mathlib.Text.{◌==◌ as ◌is◌}
use acca.Prelude.{ℕ, ◌^◌, Option, none, some, List, [], ◌∷◌, ltb, if◌then◌else◌}
use acca.Word.{wrapping_sub}
use acca.Assembler.Outcome.{Host, Outcome, ok, panicked, ◌>>=◌, unwrap, checked_sum}
use acca.Assembler.Syntax.{
  Operand, RegisterPair, RegisterText, register_number, register_name, Suffix, size_suffix,
  condition_suffix,
}
use acca.Assembler.Literal.{from_str_radix, parse_machine_register}
use acca.Assembler.Immediate.{Labels, evaluate_immediate}
use acca.Assembler.Registers.{
  Size, byte, double_byte, quad_byte, word, Condition, if_c, if_nc, if_z, if_nz, if_o, if_no, if_s,
  if_ns, if_l, if_nl, Register, Argument,
}

unfoldable pub parse_size : String → Outcome Size
parse_size text =
    if text is "b"
    then ok byte
    else if text is "d"
    then ok double_byte
    else if text is "q"
    then ok quad_byte
    else if text is "w"
    then ok word
    else panicked

-- `str::parse` of a `u8`.
unfoldable pub parse_number : List ℕ → Outcome ℕ
parse_number text = do
  value ← unwrap (from_str_radix text 10)
  if ltb value (2 ^ 8) then ok value else panicked

unfoldable pub parse_register_id : RegisterText → Outcome ℕ
parse_register_id (register_number text) = parse_number text
parse_register_id (register_name name) =
    if name is "sp"
    then ok 13
    else if name is "fp"
    then ok 14
    else if name is "lr"
    then ok 15
    else panicked

-- `pairs.next().map(|size| parse_size(size))`
abbrev pub parse_optional_size : Option String → Outcome (Option Size)
parse_optional_size none = ok none
parse_optional_size (some text) = parse_size text >>= λ size. ok (some size)

unfoldable pub parse_register_pair : RegisterPair → Outcome Register
parse_register_pair pair = do
  id ← parse_register_id pair.num_or_name
  size ← parse_optional_size pair.size
  ok (record { id = id; size = size })

unfoldable pub parse_register : Operand → Outcome Register
parse_register (Operand.register pair) = parse_register_pair pair
parse_register (Operand.register_no_size pair) = parse_register_pair pair
parse_register Operand.null = panicked
parse_register (Operand.immediate imm) = panicked
parse_register (Operand.machine_register name) = panicked

unfoldable pub parse_register_or_null : Operand → Outcome (Option Register)
parse_register_or_null (Operand.register pair) = parse_register_pair pair >>= λ reg. ok (some reg)
parse_register_or_null Operand.null = ok none
parse_register_or_null (Operand.register_no_size pair) = panicked
parse_register_or_null (Operand.immediate imm) = panicked
parse_register_or_null (Operand.machine_register name) = panicked

unfoldable pub parse_condition_text : String → Outcome Condition
parse_condition_text text =
    if text is "c"
    then ok if_c
    else if text is "nc"
    then ok if_nc
    else if text is "z"
    then ok if_z
    else if text is "nz"
    then ok if_nz
    else if text is "o"
    then ok if_o
    else if text is "no"
    then ok if_no
    else if text is "s"
    then ok if_s
    else if text is "ns"
    then ok if_ns
    else if text is "l"
    then ok if_l
    else if text is "nl"
    then ok if_nl
    else panicked

-- `parse_condition` and `parse_size` of the pair in a suffix; both refuse the other's rule.
abbrev pub parse_condition : Suffix → Outcome Condition
parse_condition (condition_suffix text) = parse_condition_text text
parse_condition (size_suffix text) = panicked

abbrev pub parse_suffix_size : Suffix → Outcome Size
parse_suffix_size (size_suffix text) = parse_size text
parse_suffix_size (condition_suffix text) = panicked

unfoldable pub next_instr_size : List Suffix → Outcome (Option Size)
next_instr_size [] = ok none
next_instr_size (suffix ∷ rest) = parse_suffix_size suffix >>= λ size. ok (some size)

unfoldable pub next_instr_condition : List Suffix → Outcome (Option Condition)
next_instr_condition [] = ok none
next_instr_condition (suffix ∷ rest) = parse_condition suffix >>= λ cond. ok (some cond)

unfoldable pub next_instr_condition_and_size :
    List Suffix → Outcome (Option Condition × Option Size)
unfolding next_instr_size
next_instr_condition_and_size [] = ok (none, none)
next_instr_condition_and_size (suffix ∷ rest) = do
  cond ← parse_condition suffix
  size ← next_instr_size rest
  ok (some cond, size)

-- `parse_argument`, which does not know the rule `register_no_size`.
unfoldable pub parse_argument : Operand → Labels → ℕ → Option ℕ → Outcome Argument
parse_argument (Operand.register pair) labels current relative =
    parse_register_pair pair >>= λ reg. ok (Argument.register reg)
parse_argument (Operand.immediate imm) labels current relative =
    evaluate_immediate imm labels current relative >>= λ value. ok (Argument.immediate value)
parse_argument (Operand.register_no_size pair) labels current relative = panicked
parse_argument Operand.null labels current relative = panicked
parse_argument (Operand.machine_register name) labels current relative = panicked

-- `evaluate_immediate` on a pair, which must be an immediate.
abbrev pub evaluate_operand : Operand → Labels → ℕ → Option ℕ → Outcome ℕ
evaluate_operand (Operand.immediate imm) labels current relative =
    evaluate_immediate imm labels current relative
evaluate_operand _ labels current relative = panicked

unfoldable pub parse_machine_register_or_immediate : Operand → Labels → ℕ → Outcome ℕ
parse_machine_register_or_immediate (Operand.machine_register name) labels current =
    parse_machine_register name
parse_machine_register_or_immediate (Operand.immediate imm) labels current =
    evaluate_immediate imm labels current none
parse_machine_register_or_immediate (Operand.register pair) labels current = panicked
parse_machine_register_or_immediate (Operand.register_no_size pair) labels current = panicked
parse_machine_register_or_immediate Operand.null labels current = panicked

-- `pairs.next().map(parse)` and `pairs.next().and_then(parse)`.
abbrev pub next_with : {A : Type 0} → (Operand → Outcome A) → List Operand → Outcome (Option A)
next_with parse [] = ok none
next_with parse (operand ∷ rest) = parse operand >>= λ value. ok (some value)

abbrev pub next_register_or_null : List Operand → Outcome (Option Register)
next_register_or_null [] = ok none
next_register_or_null (operand ∷ rest) = parse_register_or_null operand

-- The distance in bytes from the instruction after the one at `current`.
unfoldable pub byte_relative_immediate : ⦃host : Host⦄ → Labels → ℕ → Operand → Outcome ℕ
byte_relative_immediate labels current operand = do
  rel_addr ← checked_sum current 4
  result ← evaluate_operand operand labels current none
  ok (wrapping_sub result rel_addr)
