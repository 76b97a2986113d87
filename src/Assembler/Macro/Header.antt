-- ===== src/Assembler/Macro/Header.antt =====
-- What `instruction_helper` of acca-as-proc-macro/src/lib.rs reads: the name, the modifiers, the
-- arguments and the body of an instruction.
use Prim.Native.String.{String}
use text.Mathlib.Text.{◌==◌ as ◌is◌}
use acca.Prelude.{
  ℕ, zero, suc, Bool, true, false, Option, none, some, List, [], ◌∷◌, ◌==◌, if◌then◌else◌,
  ◌++◌ as ◌append◌,
}
use acca.Assembler.Template.{Modifier, absent, optional, required, ArgumentType}
use acca.Assembler.Macro.Tokens.{
  alone, joint, parenthesis, brace, bracket, Token, ident, literal, punct, group, Tokens, end, ◌▸◌,
  Expansion, done, panicked, out_of_fuel, ◌>>=◌, expect, length, length,
}
use acca.Assembler.Macro.Types.{argument_type, alternatives}

-- `IntegerLit::parse` and `value::<u64>` of the crate litrs.
pub record Litrs : Type 0 where
  pub integer_value : String → Option ℕ

pub record Argument : Type 0 where
  pub name : String
  pub ty : ArgumentType
  pub default : Option ℕ
  pub consumer_function : Option Tokens

pub data BodyTokens : Type 0 where
  no_body : BodyTokens
  bracketed braced : Tokens → BodyTokens

pub record Modifiers : Type 0 where
  pub condition_mod : Modifier
  pub size_mod : Modifier

-- The variables of `instruction_helper` once its tokens are read.
pub record Instruction : Type 0 where
  pub source_name : String
  pub modifiers : Modifiers
  pub arguments : List Argument
  pub body : BodyTokens

-- `to_string` on the token that names the instruction. `format_ident!` refuses the other tokens.
abbrev pub token_name : Token → Option String
token_name (ident name) = some name
token_name (literal text) = some text
token_name _ = none

-- `= name`, which is dropped.
unfoldable pub skip_instruction_name : Tokens → Expansion Tokens
skip_instruction_name (punct char alone ▸ end) =
    if char == b'=' then panicked else done (punct char alone ▸ end)
skip_instruction_name (punct char alone ▸ token ▸ rest) =
    if char == b'=' then done rest else done (punct char alone ▸ token ▸ rest)
skip_instruction_name tokens = done tokens

abbrev pub set_absent : Modifier → Modifier → Option Modifier
set_absent absent mod_state = some mod_state
set_absent _ mod_state = none

-- `handle_mod_tok`, on the name of the modifier.
unfoldable pub set_modifier : String → Modifier → Modifiers → Expansion Modifiers
set_modifier id_str mod_state mods =
    if id_str is "c"
    then (do
      state ← expect (set_absent mods.condition_mod mod_state)
      done (record { condition_mod = state; size_mod = mods.size_mod }))
    else if id_str is "s"
    then (do
      state ← expect (set_absent mods.size_mod mod_state)
      done (record { condition_mod = mods.condition_mod; size_mod = state }))
    else panicked

-- The loop that reads the modifiers. What follows a modifier in its brackets is dropped.
unfoldable pub read_modifiers : Modifiers → Tokens → Expansion (Modifiers × Tokens)
read_modifiers mods (punct char spacing ▸ ident id ▸ rest) =
    if char == b'.'
    then (do mods' ← set_modifier id required mods; read_modifiers mods' rest)
    else done (mods, punct char spacing ▸ ident id ▸ rest)
read_modifiers mods (punct char spacing ▸ rest) =
    if char == b'.' then panicked else done (mods, punct char spacing ▸ rest)
read_modifiers mods (group bracket (punct char spacing ▸ ident id ▸ inner) ▸ rest) =
    if char == b'.'
    then (do mods' ← set_modifier id optional mods; read_modifiers mods' rest)
    else done (mods, group bracket (punct char spacing ▸ ident id ▸ inner) ▸ rest)
read_modifiers mods (group bracket (punct char spacing ▸ inner) ▸ rest) =
    if char == b'.'
    then panicked
    else done (mods, group bracket (punct char spacing ▸ inner) ▸ rest)
read_modifiers mods tokens = done (mods, tokens)

-- The comma that is missing before an argument.
unfoldable pub needed_comma : Bool → Tokens → Expansion Tokens
needed_comma false tokens = done tokens
needed_comma true (punct char spacing ▸ rest) = if char == b',' then done rest else panicked
needed_comma true tokens = panicked

-- A comma, if one is there: whether one is needed still.
unfoldable pub optional_comma : Tokens → Bool × Tokens
optional_comma (punct char spacing ▸ rest) =
    if char == b',' then (false, rest) else (true, punct char spacing ▸ rest)
optional_comma tokens = (true, tokens)

unfoldable pub consumer : Tokens → Option Tokens × Tokens
consumer (group parenthesis stream ▸ rest) = (some stream, rest)
consumer tokens = (none, tokens)

-- The default of an argument in brackets.
unfoldable pub default_value : ⦃litrs : Litrs⦄ → Tokens → Expansion (Option ℕ × Tokens)
default_value ⦃litrs⦄ (punct char alone ▸ literal lit ▸ rest) =
    if char == b'='
    then (do value ← expect (litrs.integer_value lit); done (some value, rest))
    else done (some 0, punct char alone ▸ literal lit ▸ rest)
default_value (punct char alone ▸ rest) =
    if char == b'=' then panicked else done (some 0, punct char alone ▸ rest)
default_value tokens = done (some 0, tokens)

-- `handle_tok` from the name of the argument on.
unfoldable pub named_argument : ⦃litrs : Litrs⦄ → Bool → Tokens → Expansion (Argument × Tokens)
named_argument grouped (ident argname ▸ punct char spacing ▸ ident typestring ▸ rest) =
    if char == b':'
    then (do
      first ← expect (argument_type typestring)
      (argtype, rest) ← alternatives typestring first rest
      let (consume_func, rest) = consumer rest
      (default, rest) ← if grouped then default_value rest else done (none, rest)
      done (
        record {
          name = argname;
          ty = argtype;
          default = default;
          consumer_function = consume_func;
        },
        rest,
      ))
    else panicked
named_argument grouped tokens = panicked

-- `handle_tok`: the argument, `needs_comma` and the tokens behind it.
unfoldable pub handle_tok :
    ⦃litrs : Litrs⦄ → Bool → Bool → Tokens → Expansion (Argument × Bool × Tokens)
handle_tok grouped needs_comma tokens = do
  tokens ← needed_comma needs_comma tokens
  (argument, rest) ← named_argument grouped tokens
  let (needs_comma, rest) = optional_comma rest
  done (argument, needs_comma, rest)

-- The loop that reads the arguments, after those of `args`.
unfoldable pub read_arguments :
    ⦃litrs : Litrs⦄ → ℕ → List Argument → Bool → Tokens → Expansion (List Argument × Tokens)
read_arguments fuel args needs_comma end = done (args, end)
read_arguments fuel args needs_comma (punct char spacing ▸ rest) =
    done (args, punct char spacing ▸ rest)
read_arguments fuel args needs_comma (literal text ▸ rest) = panicked
read_arguments fuel args needs_comma (group parenthesis inner ▸ rest) =
    done (args, group parenthesis inner ▸ rest)
read_arguments fuel args needs_comma (group brace inner ▸ rest) =
    done (args, group brace inner ▸ rest)
read_arguments zero args needs_comma (group bracket inner ▸ rest) = out_of_fuel
read_arguments (suc fuel) args needs_comma (group bracket inner ▸ rest) = do
  (argument, _, _) ← handle_tok true needs_comma inner
  let (needs_comma, rest) = optional_comma rest
  read_arguments fuel (args append (argument ∷ [])) needs_comma rest
read_arguments zero args needs_comma (ident name ▸ rest) = out_of_fuel
read_arguments (suc fuel) args needs_comma (ident name ▸ rest) = do
  (argument, needs_comma, rest) ← handle_tok false needs_comma (ident name ▸ rest)
  read_arguments fuel (args append (argument ∷ [])) needs_comma rest

-- The body, behind the `=` of `=>`.
unfoldable pub arrow_body : Tokens → Expansion (BodyTokens × Tokens)
arrow_body (punct char spacing ▸ group bracket stream ▸ rest) =
    if char == b'>' then done (bracketed stream, rest) else panicked
arrow_body (punct char spacing ▸ group brace stream ▸ rest) =
    if char == b'>' then done (braced stream, rest) else panicked
arrow_body tokens = panicked

unfoldable pub read_body : Tokens → Expansion (BodyTokens × Tokens)
read_body (punct char joint ▸ rest) =
    if char == b'=' then arrow_body rest else done (no_body, punct char joint ▸ rest)
read_body tokens = done (no_body, tokens)

abbrev pub at_end : {A : Type 0} → A × Tokens → Expansion A
at_end (value, end) = done value
at_end (value, token ▸ rest) = panicked

unfoldable pub instruction_helper : ⦃litrs : Litrs⦄ → Tokens → Expansion Instruction
instruction_helper end = panicked
instruction_helper (first ▸ rest) = do
  source_name ← expect (token_name first)
  rest ← skip_instruction_name rest
  (mods, rest) ← read_modifiers (record { condition_mod = absent; size_mod = absent }) rest
  (args, rest) ← read_arguments (length rest) [] false rest
  body ← read_body rest >>= at_end
  done (record { source_name = source_name; modifiers = mods; arguments = args; body = body })
