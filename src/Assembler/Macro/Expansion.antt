-- ===== src/Assembler/Macro/Expansion.antt =====
-- `instructions!` of acca-as-proc-macro/src/lib.rs: the code that it makes of each instruction, as
-- a template.
use Prim.Native.String.{String}
use text.Mathlib.Text.{◌==◌ as ◌is◌}
use acca.Prelude.{Option, none, some, List, [], ◌∷◌, map, ◌==◌, if◌then◌else◌, ◌++◌ as ◌append◌}
use acca.Assembler.Template.{
  Modifier, absent, Body, Template, ArgumentSpec, Consumer, next_byte_relative_immediate,
  next_machine_register_or_immediate,
}
use acca.Assembler.Macro.Tokens.{
  ident, punct, Tokens, end, ◌▸◌, ◌++◌, Expansion, done, panicked, ◌>>=◌, expect, length,
}
use acca.Assembler.Macro.Header.{
  Litrs, Argument, BodyTokens, no_body, bracketed, braced, Modifiers, Instruction,
  instruction_helper,
}
use acca.Assembler.Macro.Encoding.{letter}
use acca.Assembler.Macro.Arms.{encoded, arms}

-- The function that a consumer names, of those that the table of acca-as/src/main.rs uses. Any
-- other name counts as one that rustc does not know.
abbrev pub consumer_of : Option Tokens → Expansion (Option Consumer)
consumer_of none = done none
consumer_of (some (ident name ▸ end)) =
    if name is "next_byte_relative_immediate"
    then done (some next_byte_relative_immediate)
    else if name is "next_machine_register_or_immediate"
    then done (some next_machine_register_or_immediate)
    else panicked
consumer_of (some tokens) = panicked

-- The definition of the variable of an argument.
abbrev pub argument_spec : Argument → Expansion ArgumentSpec
argument_spec argument = do
  char ← expect (letter argument.name)
  function ← consumer_of argument.consumer_function
  done (record {
    name = char;
    ty = argument.ty;
    default = argument.default;
    consumer_function = function;
  })

abbrev pub argument_specs : List Argument → Expansion (List ArgumentSpec)
argument_specs [] = done []
argument_specs (argument ∷ args) = do
  spec ← argument_spec argument
  specs ← argument_specs args
  done (spec ∷ specs)

-- `size_ident` and `cond_ident`.
abbrev pub size_ident : Modifier → List String
size_ident absent = []
size_ident _ = "s" ∷ []

abbrev pub cond_ident : Modifier → List String
cond_ident absent = []
cond_ident _ = "c" ∷ []

abbrev pub additional_idents : Modifiers → List String
additional_idents mods = size_ident mods.size_mod append cond_ident mods.condition_mod

-- An instruction that has no body writes no word, as one without arms.
abbrev pub body_of : Instruction → BodyTokens → Expansion Body
body_of instruction no_body = done (Body.braced [])
body_of instruction (bracketed stream) = do
  bits ←
      encoded
        (map (λ argument. argument.name) instruction.arguments
          append additional_idents instruction.modifiers)
        stream
  done (Body.bracketed bits)
body_of instruction (braced stream) = do
  list ← arms (length stream) (additional_idents instruction.modifiers) stream
  done (Body.braced list)

unfoldable pub expanded_body : Instruction → Expansion Body
expanded_body instruction = body_of instruction instruction.body

unfoldable pub expanded : Instruction → Expansion Template
expanded instruction = do
  specs ← argument_specs instruction.arguments
  body ← expanded_body instruction
  done (record {
    condition_mod = instruction.modifiers.condition_mod;
    size_mod = instruction.modifiers.size_mod;
    arguments = specs;
    body = body;
  })

-- What is left at the end of the loop.
abbrev pub last_sequence : Tokens → List Tokens
last_sequence end = []
last_sequence (first ▸ tokens) = (first ▸ tokens) ∷ []

-- The loop of `instructions!` that splits the tokens at each `;`; `tokens` are those since the
-- last one.
unfoldable pub instruction_sequences : Tokens → Tokens → List Tokens
instruction_sequences end tokens = last_sequence tokens
instruction_sequences (punct char spacing ▸ rest) tokens =
    if char == b';'
    then tokens ∷ instruction_sequences rest end
    else instruction_sequences rest (tokens ++ (punct char spacing ▸ end))
instruction_sequences (token ▸ rest) tokens = instruction_sequences rest (tokens ++ (token ▸ end))

-- An arm of the `match` on the rule: the name behind `instr_`, and the template.
unfoldable pub instruction_arm : ⦃litrs : Litrs⦄ → Tokens → Expansion (String × Template)
instruction_arm tokens = do
  instruction ← instruction_helper tokens
  template ← expanded instruction
  done (instruction.source_name, template)

abbrev pub instruction_arms : ⦃litrs : Litrs⦄ → List Tokens → Expansion (List (String × Template))
instruction_arms [] = done []
instruction_arms (sequence ∷ sequences) = do
  arm ← instruction_arm sequence
  more ← instruction_arms sequences
  done (arm ∷ more)

unfoldable pub instructions : ⦃litrs : Litrs⦄ → Tokens → Expansion (List (String × Template))
instructions item = instruction_arms (instruction_sequences item end)
