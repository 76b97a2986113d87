-- ===== src/Assembler/Tests/Macros.antt =====
-- The macros of the assembler on concrete tokens.
use acca.Prelude.{◌≡◌, ◌≢◌, refl, map, none, some}
use acca.Assembler.Literal.{from_str_radix, digits_value, next_value, to_digit}
use acca.Assembler.Template.{immediate}
use acca.Assembler.Instructions.{template}
use acca.Assembler.Macro.Tokens.{alone, Tokens, ident, punct, end, ◌▸◌, done, out_of_fuel, codes}
use acca.Assembler.Macro.Types.{argument_type, alternative_type}
use acca.Assembler.Macro.Alternatives.{alternative_type-argument_type}
use acca.Assembler.Macro.Header.{Litrs}
use acca.Assembler.Macro.Expansion.{instructions}
use acca.Assembler.Macro.Table.{tokens_of, rule_name, rules}
use acca.Assembler.Macro.Sequences.{instructions-tokens_of}
use acca.Assembler.Macro.Total.{instructions-≢}

-- Decimal literals without a suffix.
instance abbrev decimal : Litrs
decimal = record { integer_value = λ text. from_str_radix (codes text) 10 }

-- The whole table of the source.
instructions-tokens_of_example :
    instructions (tokens_of rules) ≡ done (map (λ rule. (rule_name rule, template rule)) rules)
instructions-tokens_of_example = instructions-tokens_of rules

-- `nop .c .c`, which panics.
abbrev twice : Tokens
twice = ident "nop" ▸ punct b'.' alone ▸ ident "c" ▸ punct b'.' alone ▸ ident "c" ▸ end

instructions-≢_example : instructions twice ≢ out_of_fuel
instructions-≢_example = instructions-≢ twice

argument_type-imm7 : argument_type "imm7" ≡ some (immediate 7)
unfolding argument_type from_str_radix digits_value next_value to_digit
argument_type-imm7 = refl

-- `imm7 | reg`
alternative_type-argument_type_example : alternative_type (immediate 7) "imm7" "reg" ≡ none
alternative_type-argument_type_example =
    alternative_type-argument_type "imm7" "reg" (immediate 7) argument_type-imm7 (cc)
