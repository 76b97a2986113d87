-- ===== src/Assembler/Macro/Table.antt =====
-- The argument of `instructions!` in acca-as/src/main.rs, one instruction at a time. A word of
-- digits and letters is one literal.
use Prim.Native.String.{String}
use acca.Prelude.{List, [], ◌∷◌}
use acca.Assembler.Instructions.Rules.{InstructionRule}
use acca.Assembler.Macro.Notation.{
  mark, typed, either, optionally, consumed, encoding, let_size, arm, sized_arm, choice,
  size_optional, cond_optional, cond_required, renamed,
}
use acca.Assembler.Macro.Tokens.{ident, Tokens, end, ◌▸◌, ◌++◌}

unfoldable pub instruction_tokens : InstructionRule → Tokens
instruction_tokens InstructionRule.pushs =
    ident "pushs"
    ▸ size_optional
    ▸ encoding (either "a" "reg" "null" ∷ []) "1101110000000000000000000ssaaaaa"
instruction_tokens InstructionRule.pushp =
    ident "pushp"
    ▸ size_optional
    ▸ encoding (either "a" "reg" "null" ∷ either "b" "reg" "null" ∷ [])
        "11011000000000000000ssaaaaabbbbb"
instruction_tokens InstructionRule.pops =
    ident "pops"
    ▸ size_optional
    ▸ encoding (either "a" "reg" "null" ∷ []) "1101010000000000000000000ssaaaaa"
instruction_tokens InstructionRule.popp =
    ident "popp"
    ▸ size_optional
    ▸ encoding (either "a" "reg" "null" ∷ either "b" "reg" "null" ∷ [])
        "11010000000000000000ssaaaaabbbbb"
instruction_tokens InstructionRule.lds =
    ident "lds"
    ▸ size_optional
    ▸ encoding (typed "d" "reg" ∷ typed "a" "reg" ∷ []) "1100110000000000000000ssddddaaaa"
instruction_tokens InstructionRule.ldp =
    ident "ldp"
    ▸ size_optional
    ▸ encoding (typed "d" "reg" ∷ typed "e" "reg" ∷ typed "a" "reg" ∷ [])
        "110010000000000000ssddddeeeeaaaa"
instruction_tokens InstructionRule.sts =
    ident "sts"
    ▸ size_optional
    ▸ encoding (typed "a" "reg" ∷ typed "b" "reg" ∷ []) "1100010000000000000000ssaaaabbbb"
instruction_tokens InstructionRule.stp =
    ident "stp"
    ▸ size_optional
    ▸ encoding (typed "a" "reg" ∷ typed "b" "reg" ∷ typed "c" "reg" ∷ [])
        "110000000000000000ssaaaabbbbcccc"
instruction_tokens InstructionRule.ldi =
    ident "ldi"
    ▸ encoding
        (typed "d" "reg" ∷ typed "a" "imm16" ∷ optionally "b" "imm6" ∷ optionally "c" "imm2" ∷ [])
        "1110ccaaaaaaaaaaaaaaaabbbbbbdddd"
instruction_tokens InstructionRule.ldr =
    ident "ldr"
    ▸ encoding (typed "d" "reg" ∷ consumed "a" "rel22" "next_byte_relative_immediate" ∷ [])
        "001100ddddaaaaaaaaaaaaaaaaaaaaaa"
instruction_tokens InstructionRule.copy =
    ident "copy"
    ▸ size_optional
    ▸ encoding (typed "d" "reg" ∷ typed "S" "reg" ∷ []) "1010100000000000000000ssddddSSSS"
instruction_tokens InstructionRule.add_reg = renamed "add_reg" "add" (
    size_optional
    ▸ encoding
        (either "d" "reg" "null"
          ∷ typed "a" "reg"
          ∷ typed "b" "reg"
          ∷ optionally "c" "bool"
          ∷ optionally "f" "bool"
          ∷ [])
        "101001000000000sscfdddddaaaabbbb")
instruction_tokens InstructionRule.add_imm = renamed "add_imm" "add" (
    size_optional
    ▸ encoding
        (either "d" "reg" "null"
          ∷ typed "a" "reg"
          ∷ typed "b" "imm11"
          ∷ optionally "S" "imm3"
          ∷ optionally "A" "bool"
          ∷ optionally "c" "bool"
          ∷ optionally "f" "bool"
          ∷ [])
        "1011sscfdddddaaaaASSSbbbbbbbbbbb")
instruction_tokens InstructionRule.sub_reg = renamed "sub_reg" "sub" (
    size_optional
    ▸ encoding
        (either "d" "reg" "null"
          ∷ typed "a" "reg"
          ∷ typed "b" "reg"
          ∷ optionally "B" "bool"
          ∷ optionally "f" "bool"
          ∷ [])
        "101000000000000ssBfdddddaaaabbbb")
instruction_tokens InstructionRule.sub_imm = renamed "sub_imm" "sub" (
    size_optional
    ▸ encoding
        (either "d" "reg" "null"
          ∷ typed "a" "reg"
          ∷ typed "b" "imm11"
          ∷ optionally "S" "imm3"
          ∷ optionally "A" "bool"
          ∷ optionally "B" "bool"
          ∷ optionally "f" "bool"
          ∷ [])
        "1001ssBfdddddaaaaASSSbbbbbbbbbbb")
instruction_tokens InstructionRule.mul =
    ident "mul"
    ▸ choice
        (typed "d" "reg"
          ∷ typed "a" "reg"
          ∷ typed "b" "reg"
          ∷ optionally "S" "bool"
          ∷ optionally "f" "bool"
          ∷ [])
        (sized_arm
          (typed "d" "reg"
            ∷ typed "a" "reg"
            ∷ typed "b" "reg"
            ∷ typed "S" "bool"
            ∷ typed "f" "bool"
            ∷ [])
          (let_size "s" ((ident "a" ▸ end) ∷ (ident "b" ▸ end) ∷ [])
            ++ let_size "t" ((ident "d" ▸ end) ∷ []))
          "10001100000000ssttSfddddaaaabbbb")
instruction_tokens InstructionRule.div =
    ident "div"
    ▸ size_optional
    ▸ encoding
        (typed "d" "reg"
          ∷ typed "r" "reg"
          ∷ typed "a" "reg"
          ∷ typed "b" "reg"
          ∷ optionally "S" "bool"
          ∷ optionally "f" "bool"
          ∷ [])
        "100010000000ssSfddddrrrraaaabbbb"
instruction_tokens InstructionRule.and_reg = renamed "and_reg" "and" (
    size_optional
    ▸ encoding
        (either "d" "reg" "null" ∷ typed "a" "reg" ∷ typed "b" "reg" ∷ optionally "f" "bool" ∷ [])
        "1010110000000000ssfdddddaaaabbbb")
instruction_tokens InstructionRule.and_imm = renamed "and_imm" "and" (
    size_optional
    ▸ encoding
        (either "d" "reg" "null"
          ∷ typed "a" "reg"
          ∷ typed "b" "imm11"
          ∷ optionally "S" "imm3"
          ∷ optionally "A" "bool"
          ∷ optionally "f" "bool"
          ∷ [])
        "10000AssfdddddaaaabbbbbbbbbbbSSS")
instruction_tokens InstructionRule.or_reg = renamed "or_reg" "or" (
    size_optional
    ▸ encoding
        (either "d" "reg" "null" ∷ typed "a" "reg" ∷ typed "b" "reg" ∷ optionally "f" "bool" ∷ [])
        "0100000000000000ssfdddddaaaabbbb")
instruction_tokens InstructionRule.or_imm = renamed "or_imm" "or" (
    size_optional
    ▸ encoding
        (either "d" "reg" "null"
          ∷ typed "a" "reg"
          ∷ typed "b" "imm11"
          ∷ optionally "S" "imm3"
          ∷ optionally "A" "bool"
          ∷ optionally "f" "bool"
          ∷ [])
        "01111AssfdddddaaaabbbbbbbbbbbSSS")
instruction_tokens InstructionRule.xor_reg = renamed "xor_reg" "xor" (
    size_optional
    ▸ encoding
        (either "d" "reg" "null" ∷ typed "a" "reg" ∷ typed "b" "reg" ∷ optionally "f" "bool" ∷ [])
        "0011100000000000ssfdddddaaaabbbb")
instruction_tokens InstructionRule.xor_imm = renamed "xor_imm" "xor" (
    size_optional
    ▸ encoding
        (either "d" "reg" "null"
          ∷ typed "a" "reg"
          ∷ typed "b" "imm11"
          ∷ optionally "S" "imm3"
          ∷ optionally "A" "bool"
          ∷ optionally "f" "bool"
          ∷ [])
        "01110AssfdddddaaaabbbbbbbbbbbSSS")
instruction_tokens InstructionRule.shl =
    ident "shl"
    ▸ size_optional
    ▸ choice
        (either "d" "reg" "null"
          ∷ typed "a" "reg"
          ∷ either "b" "reg" "imm7"
          ∷ optionally "f" "bool"
          ∷ [])
        (arm (either "d" "reg" "null" ∷ typed "a" "reg" ∷ typed "b" "reg" ∷ typed "f" "bool" ∷ [])
            "0110100000000000ssfdddddaaaabbbb"
          ++ arm
              (either "d" "reg" "null" ∷ typed "a" "reg" ∷ typed "b" "imm7" ∷ typed "f" "bool" ∷ [])
              "0110110000000ssfdddddaaaabbbbbbb")
instruction_tokens InstructionRule.shr =
    ident "shr"
    ▸ size_optional
    ▸ choice
        (either "d" "reg" "null"
          ∷ typed "a" "reg"
          ∷ either "b" "reg" "imm7"
          ∷ optionally "A" "bool"
          ∷ optionally "f" "bool"
          ∷ [])
        (arm
            (either "d" "reg" "null"
              ∷ typed "a" "reg"
              ∷ typed "b" "reg"
              ∷ typed "A" "bool"
              ∷ typed "f" "bool"
              ∷ [])
            "011000000000000ssAfdddddaaaabbbb"
          ++ arm
              (either "d" "reg" "null"
                ∷ typed "a" "reg"
                ∷ typed "b" "imm7"
                ∷ typed "A" "bool"
                ∷ typed "f" "bool"
                ∷ [])
              "011001000000ssAfdddddaaaabbbbbbb")
instruction_tokens InstructionRule.rot =
    ident "rot"
    ▸ size_optional
    ▸ choice
        (either "d" "reg" "null"
          ∷ typed "a" "reg"
          ∷ either "b" "reg" "imm7"
          ∷ optionally "f" "bool"
          ∷ [])
        (arm (either "d" "reg" "null" ∷ typed "a" "reg" ∷ typed "b" "reg" ∷ typed "f" "bool" ∷ [])
            "0101100000000000ssfdddddaaaabbbb"
          ++ arm
              (either "d" "reg" "null" ∷ typed "a" "reg" ∷ typed "b" "imm7" ∷ typed "f" "bool" ∷ [])
              "0101110000000ssfdddddaaaabbbbbbb")
instruction_tokens InstructionRule.neg =
    ident "neg"
    ▸ size_optional
    ▸ encoding (typed "d" "reg" ∷ typed "a" "reg" ∷ optionally "f" "bool" ∷ [])
        "010101000000000000000ssfddddaaaa"
instruction_tokens InstructionRule.bswap =
    ident "bswap"
    ▸ size_optional
    ▸ encoding (typed "d" "reg" ∷ typed "a" "reg" ∷ optionally "f" "bool" ∷ [])
        "010100000000000000000ssfddddaaaa"
instruction_tokens InstructionRule.soc =
    ident "soc"
    ▸ cond_required (
        size_optional
        ▸ encoding
            (typed "d" "reg" ∷ typed "a" "reg" ∷ typed "b" "reg" ∷ optionally "B" "bool" ∷ [])
            "1111000000000ccccBssddddaaaabbbb")
instruction_tokens InstructionRule.sof =
    ident "sof"
    ▸ cond_required
        (size_optional ▸ encoding (typed "d" "reg" ∷ []) "1111010000000000000000ccccssdddd")
instruction_tokens InstructionRule.jmpa =
    ident "jmpa"
    ▸ cond_optional
    ▸ encoding (typed "a" "reg" ∷ []) "010011000000000000000000ccccaaaa"
instruction_tokens InstructionRule.jmpr =
    ident "jmpr"
    ▸ cond_optional
    ▸ choice (either "a" "reg" "rel22" ∷ []) (
        arm (typed "a" "reg" ∷ []) "010010000000000000000000ccccaaaa"
        ++ arm (typed "a" "rel22" ∷ []) "010001ccccaaaaaaaaaaaaaaaaaaaaaa")
instruction_tokens InstructionRule.cjmpa =
    ident "cjmpa"
    ▸ cond_required (
        size_optional
        ▸ encoding (typed "a" "reg" ∷ typed "b" "reg" ∷ typed "C" "reg" ∷ [])
            "00111100000000ccccssaaaabbbbCCCC")
instruction_tokens InstructionRule.cjmpr =
    ident "cjmpr"
    ▸ cond_required (
        size_optional
        ▸ choice (either "a" "reg" "rel13" ∷ typed "b" "reg" ∷ typed "C" "reg" ∷ []) (
            arm (typed "a" "reg" ∷ typed "b" "reg" ∷ typed "C" "reg" ∷ [])
              "00110100000000ccccssaaaabbbbCCCC"
            ++ arm (typed "a" "rel13" ∷ typed "b" "reg" ∷ typed "C" "reg" ∷ [])
                "11111ccccssbbbbCCCCaaaaaaaaaaaaa"))
instruction_tokens InstructionRule.calla =
    ident "calla"
    ▸ cond_optional
    ▸ encoding (typed "a" "reg" ∷ []) "001010000000000000000000ccccaaaa"
instruction_tokens InstructionRule.callr =
    ident "callr"
    ▸ cond_optional
    ▸ choice (either "a" "reg" "rel22" ∷ []) (
        arm (typed "a" "reg" ∷ []) "001001000000000000000000ccccaaaa"
        ++ arm (typed "a" "rel22" ∷ []) "001000ccccaaaaaaaaaaaaaaaaaaaaaa")
instruction_tokens InstructionRule.ret =
    ident "ret" ▸ encoding [] "00011100000000000000000000000000"
instruction_tokens InstructionRule.eret =
    ident "eret" ▸ encoding [] "00011000000000000000000000000000"
instruction_tokens InstructionRule.udf =
    ident "udf" ▸ encoding [] "00000000000000000000000000000000"
instruction_tokens InstructionRule.dbg =
    ident "dbg" ▸ encoding [] "00001000000000000000000000000000"
instruction_tokens InstructionRule.exc =
    ident "exc" ▸ encoding (typed "a" "imm16" ∷ []) "0000110000000000aaaaaaaaaaaaaaaa"
instruction_tokens InstructionRule.nop =
    ident "nop" ▸ encoding [] "00000100000000000000000000000000"
instruction_tokens InstructionRule.ldm =
    ident "ldm"
    ▸ encoding (typed "d" "reg" ∷ consumed "a" "imm22" "next_machine_register_or_immediate" ∷ [])
        "000100ddddaaaaaaaaaaaaaaaaaaaaaa"
instruction_tokens InstructionRule.stm =
    ident "stm"
    ▸ encoding (consumed "d" "imm22" "next_machine_register_or_immediate" ∷ typed "a" "reg" ∷ [])
        "000101aaaadddddddddddddddddddddd"
instruction_tokens InstructionRule.pseudo_cmp_reg = renamed "pseudo_cmp_reg" "cmp" (
    size_optional
    ▸ encoding (typed "a" "reg" ∷ typed "b" "reg" ∷ optionally "B" "bool" ∷ [])
        "101000000000000ssB111111aaaabbbb")
instruction_tokens InstructionRule.pseudo_cmp_imm = renamed "pseudo_cmp_imm" "cmp" (
    size_optional
    ▸ encoding
        (typed "a" "reg"
          ∷ typed "b" "imm11"
          ∷ optionally "S" "imm3"
          ∷ optionally "A" "bool"
          ∷ optionally "B" "bool"
          ∷ [])
        "1001ssB111111aaaaASSSbbbbbbbbbbb")

unfoldable pub rule_name : InstructionRule → String
rule_name InstructionRule.pushs = "pushs"
rule_name InstructionRule.pushp = "pushp"
rule_name InstructionRule.pops = "pops"
rule_name InstructionRule.popp = "popp"
rule_name InstructionRule.lds = "lds"
rule_name InstructionRule.ldp = "ldp"
rule_name InstructionRule.sts = "sts"
rule_name InstructionRule.stp = "stp"
rule_name InstructionRule.ldi = "ldi"
rule_name InstructionRule.ldr = "ldr"
rule_name InstructionRule.copy = "copy"
rule_name InstructionRule.add_reg = "add_reg"
rule_name InstructionRule.add_imm = "add_imm"
rule_name InstructionRule.sub_reg = "sub_reg"
rule_name InstructionRule.sub_imm = "sub_imm"
rule_name InstructionRule.mul = "mul"
rule_name InstructionRule.div = "div"
rule_name InstructionRule.and_reg = "and_reg"
rule_name InstructionRule.and_imm = "and_imm"
rule_name InstructionRule.or_reg = "or_reg"
rule_name InstructionRule.or_imm = "or_imm"
rule_name InstructionRule.xor_reg = "xor_reg"
rule_name InstructionRule.xor_imm = "xor_imm"
rule_name InstructionRule.shl = "shl"
rule_name InstructionRule.shr = "shr"
rule_name InstructionRule.rot = "rot"
rule_name InstructionRule.neg = "neg"
rule_name InstructionRule.bswap = "bswap"
rule_name InstructionRule.soc = "soc"
rule_name InstructionRule.sof = "sof"
rule_name InstructionRule.jmpa = "jmpa"
rule_name InstructionRule.jmpr = "jmpr"
rule_name InstructionRule.cjmpa = "cjmpa"
rule_name InstructionRule.cjmpr = "cjmpr"
rule_name InstructionRule.calla = "calla"
rule_name InstructionRule.callr = "callr"
rule_name InstructionRule.ret = "ret"
rule_name InstructionRule.eret = "eret"
rule_name InstructionRule.udf = "udf"
rule_name InstructionRule.dbg = "dbg"
rule_name InstructionRule.exc = "exc"
rule_name InstructionRule.nop = "nop"
rule_name InstructionRule.ldm = "ldm"
rule_name InstructionRule.stm = "stm"
rule_name InstructionRule.pseudo_cmp_reg = "pseudo_cmp_reg"
rule_name InstructionRule.pseudo_cmp_imm = "pseudo_cmp_imm"

-- The argument of `instructions!`, for some of the instructions: each ends in `;`.
abbrev pub tokens_of : List InstructionRule → Tokens
tokens_of [] = end
tokens_of (rule ∷ list) = instruction_tokens rule ++ (mark b';' ▸ tokens_of list)

-- The instructions, in the order of the source.
abbrev pub rules : List InstructionRule
rules =
    InstructionRule.pushs ∷ InstructionRule.pushp ∷ InstructionRule.pops ∷ InstructionRule.popp
    ∷ InstructionRule.lds ∷ InstructionRule.ldp ∷ InstructionRule.sts ∷ InstructionRule.stp
    ∷ InstructionRule.ldi ∷ InstructionRule.ldr ∷ InstructionRule.copy ∷ InstructionRule.add_reg
    ∷ InstructionRule.add_imm ∷ InstructionRule.sub_reg ∷ InstructionRule.sub_imm
    ∷ InstructionRule.mul ∷ InstructionRule.div ∷ InstructionRule.and_reg ∷ InstructionRule.and_imm
    ∷ InstructionRule.or_reg ∷ InstructionRule.or_imm ∷ InstructionRule.xor_reg
    ∷ InstructionRule.xor_imm ∷ InstructionRule.shl ∷ InstructionRule.shr ∷ InstructionRule.rot
    ∷ InstructionRule.neg ∷ InstructionRule.bswap ∷ InstructionRule.soc ∷ InstructionRule.sof
    ∷ InstructionRule.jmpa ∷ InstructionRule.jmpr ∷ InstructionRule.cjmpa ∷ InstructionRule.cjmpr
    ∷ InstructionRule.calla ∷ InstructionRule.callr ∷ InstructionRule.ret ∷ InstructionRule.eret
    ∷ InstructionRule.udf ∷ InstructionRule.dbg ∷ InstructionRule.exc ∷ InstructionRule.nop
    ∷ InstructionRule.ldm ∷ InstructionRule.stm ∷ InstructionRule.pseudo_cmp_reg
    ∷ InstructionRule.pseudo_cmp_imm ∷ []
