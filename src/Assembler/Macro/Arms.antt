-- ===== src/Assembler/Macro/Arms.antt =====
-- `instruction_body!` of acca-as/src/main.rs, with what `instruction_helper` of
-- acca-as-proc-macro/src/lib.rs hands to it.
use Prim.Native.String.{String}
use text.Mathlib.Text.{◌==◌ as ◌is◌}
use acca.Prelude.{ℕ, zero, suc, ◌&&◌, List, [], ◌∷◌, map, ◌==◌, if◌then◌else◌, ◌++◌ as ◌append◌}
use acca.Encoding.Scan.{InstructionBit}
use acca.Assembler.Template.{Pattern, Arm}
use acca.Assembler.Macro.Tokens.{
  alone, joint, parenthesis, brace, bracket, ident, punct, group, Tokens, end, ◌▸◌, ◌++◌, Expansion,
  done, panicked, out_of_fuel, ◌>>=◌, expect, idents,
}
use acca.Assembler.Macro.Encoding.{letter, instruction_encoding}

-- The identifiers that the expansion of an arm hands to `instruction_encoding!`, and its bits.
abbrev pub encoded : List String → Tokens → Expansion (List InstructionBit)
encoded names value =
    instruction_encoding (ident "write_instruction" ▸ (idents names ++ (punct b';' alone ▸ value)))

-- `instruction_match_pattern!`
abbrev pub pattern_of : String → Pattern
pattern_of ty =
    if ty is "reg" then Pattern.reg else if ty is "null" then Pattern.null else Pattern.imm

-- An argument's patterns in an arm.
abbrev pub ArmArgument : Type 0
ArmArgument = String × List Pattern

-- `$($arg:ident : $($ty:ident)|*),+ $(,)?`: the arguments, after those that are read already.
unfoldable mutual
  pub arm_names : List ArmArgument → Tokens → Expansion (List ArmArgument × Tokens)
  arm_names args (ident arg ▸ punct char spacing ▸ ident ty ▸ rest) =
      if char == b':' then arm_types args arg (pattern_of ty ∷ []) rest else panicked
  arm_names args (ident arg ▸ rest) = panicked
  arm_names args tokens = done (args, tokens)

  pub arm_types :
      List ArmArgument → String → List Pattern → Tokens → Expansion (List ArmArgument × Tokens)
  arm_types args arg types (punct char spacing ▸ rest) =
      if char == b'|'
      then arm_alternative args arg types rest
      else if char == b','
      then arm_names (args append ((arg, types) ∷ [])) rest
      else done (args append ((arg, types) ∷ []), punct char spacing ▸ rest)
  arm_types args arg types tokens = done (args append ((arg, types) ∷ []), tokens)

  pub arm_alternative :
      List ArmArgument → String → List Pattern → Tokens → Expansion (List ArmArgument × Tokens)
  arm_alternative args arg types (ident ty ▸ rest) =
      arm_types args arg (types append (pattern_of ty ∷ [])) rest
  arm_alternative args arg types tokens = panicked

-- `$($reg:ident),+ $(,)?`
unfoldable pub registers : Tokens → Expansion (List String)
registers (ident reg ▸ end) = done (reg ∷ [])
registers (ident reg ▸ punct char spacing ▸ end) =
    if char == b',' then done (reg ∷ []) else panicked
registers (ident reg ▸ punct char spacing ▸ rest) =
    if char == b',' then (do regs ← registers rest; done (reg ∷ regs)) else panicked
registers tokens = panicked

-- `$(let $size_name:ident = size_of(…);)*`
unfoldable pub sizes : Tokens → Expansion (List (String × List String))
sizes end = done []
sizes
      (ident let_word
        ▸ ident size_name
        ▸ punct equals alone
        ▸ ident size_of
        ▸ group parenthesis regs
        ▸ punct semicolon spacing
        ▸ rest) =
    if let_word is "let" && equals == b'=' && size_of is "size_of" && semicolon == b';'
    then (do regs ← registers regs; more ← sizes rest; done ((size_name, regs) ∷ more))
    else panicked
sizes tokens = panicked

-- An optional block of sizes.
abbrev pub optional_sizes : Tokens → Expansion (List (String × List String) × Tokens)
optional_sizes (group brace block ▸ rest) = do names ← sizes block; done (names, rest)
optional_sizes tokens = done ([], tokens)

-- `=> [ $($value:tt)* ] $(,)?`
unfoldable pub arm_value : Tokens → Expansion (Tokens × Tokens)
arm_value
      (punct equals joint ▸ punct greater spacing ▸ group bracket value ▸ punct char after ▸ rest) =
    if equals == b'=' && greater == b'>'
    then done (value, if char == b',' then rest else punct char after ▸ rest)
    else panicked
arm_value (punct equals joint ▸ punct greater spacing ▸ group bracket value ▸ rest) =
    if equals == b'=' && greater == b'>' then done (value, rest) else panicked
arm_value tokens = panicked

-- The letters of the identifiers.
unfoldable pub letters : List String → Expansion (List ℕ)
letters [] = done []
letters (name ∷ names) = do char ← expect (letter name); chars ← letters names; done (char ∷ chars)

abbrev pub named_sizes : List (String × List String) → Expansion (List (ℕ × List ℕ))
named_sizes [] = done []
named_sizes ((size_name, regs) ∷ rest) = do
  char ← expect (letter size_name)
  chars ← letters regs
  more ← named_sizes rest
  done ((char, chars) ∷ more)

abbrev pub named_patterns : List ArmArgument → Expansion (List (ℕ × List Pattern))
named_patterns [] = done []
named_patterns ((arg, types) ∷ rest) = do
  char ← expect (letter arg)
  more ← named_patterns rest
  done ((char, types) ∷ more)

-- The expansion of an arm.
abbrev pub expanded_arm :
    List String → List ArmArgument → List (String × List String) → Tokens → Expansion Arm
expanded_arm additional [] size_lets value = panicked
expanded_arm additional (arg ∷ rest) size_lets value = do
  let args = arg ∷ rest
  patterns ← named_patterns args
  sizes ← named_sizes size_lets
  bits ←
      encoded
        (map (λ (name, _). name) size_lets append map (λ (name, _). name) args append additional)
        value
  done (record { patterns = patterns; sizes = sizes; encoding = bits })

-- The first rule of `instruction_body!`, and the second at the end of the arms.
unfoldable pub arms : ℕ → List String → Tokens → Expansion (List Arm)
arms fuel additional end = done []
arms zero additional tokens = out_of_fuel
arms (suc fuel) additional (token ▸ tokens) = do
  (args, rest) ← arm_names [] (token ▸ tokens)
  (size_lets, rest) ← optional_sizes rest
  (value, rest) ← arm_value rest
  arm ← expanded_arm additional args size_lets value
  more ← arms fuel additional rest
  done (arm ∷ more)
