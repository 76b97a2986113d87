-- ===== src/Assembler/Instructions/Bodies.antt =====
-- The encodings of the instructions.
use acca.Prelude.{ℕ, List, [], ◌∷◌}
use Prim.Native.String.{String}
use acca.Encoding.Scan.{bits_of}
use acca.Assembler.Template.{Pattern, reg, null, imm, Arm, Body, bracketed, braced}
use acca.Assembler.Instructions.Rules.{InstructionRule}

abbrev pub arm : List (ℕ × List Pattern) → List (ℕ × List ℕ) → String → Arm
arm patterns sizes string = record { patterns = patterns; sizes = sizes; encoding = bits_of string }

unfoldable pub body : InstructionRule → Body
body InstructionRule.pushs = bracketed (bits_of "1101110000000000000000000ssaaaaa")
body InstructionRule.pushp = bracketed (bits_of "11011000000000000000ssaaaaabbbbb")
body InstructionRule.pops = bracketed (bits_of "1101010000000000000000000ssaaaaa")
body InstructionRule.popp = bracketed (bits_of "11010000000000000000ssaaaaabbbbb")
body InstructionRule.lds = bracketed (bits_of "1100110000000000000000ssddddaaaa")
body InstructionRule.ldp = bracketed (bits_of "110010000000000000ssddddeeeeaaaa")
body InstructionRule.sts = bracketed (bits_of "1100010000000000000000ssaaaabbbb")
body InstructionRule.stp = bracketed (bits_of "110000000000000000ssaaaabbbbcccc")
body InstructionRule.ldi = bracketed (bits_of "1110ccaaaaaaaaaaaaaaaabbbbbbdddd")
body InstructionRule.ldr = bracketed (bits_of "001100ddddaaaaaaaaaaaaaaaaaaaaaa")
body InstructionRule.copy = bracketed (bits_of "1010100000000000000000ssddddSSSS")
body InstructionRule.add_reg = bracketed (bits_of "101001000000000sscfdddddaaaabbbb")
body InstructionRule.add_imm = bracketed (bits_of "1011sscfdddddaaaaASSSbbbbbbbbbbb")
body InstructionRule.sub_reg = bracketed (bits_of "101000000000000ssBfdddddaaaabbbb")
body InstructionRule.sub_imm = bracketed (bits_of "1001ssBfdddddaaaaASSSbbbbbbbbbbb")
body InstructionRule.mul = braced (
    arm
      ((b'd', reg ∷ [])
        ∷ (b'a', reg ∷ [])
        ∷ (b'b', reg ∷ [])
        ∷ (b'S', imm ∷ [])
        ∷ (b'f', imm ∷ [])
        ∷ [])
      ((b's', b'a' ∷ b'b' ∷ []) ∷ (b't', b'd' ∷ []) ∷ []) "10001100000000ssttSfddddaaaabbbb"
    ∷ [])
body InstructionRule.div = bracketed (bits_of "100010000000ssSfddddrrrraaaabbbb")
body InstructionRule.and_reg = bracketed (bits_of "1010110000000000ssfdddddaaaabbbb")
body InstructionRule.and_imm = bracketed (bits_of "10000AssfdddddaaaabbbbbbbbbbbSSS")
body InstructionRule.or_reg = bracketed (bits_of "0100000000000000ssfdddddaaaabbbb")
body InstructionRule.or_imm = bracketed (bits_of "01111AssfdddddaaaabbbbbbbbbbbSSS")
body InstructionRule.xor_reg = bracketed (bits_of "0011100000000000ssfdddddaaaabbbb")
body InstructionRule.xor_imm = bracketed (bits_of "01110AssfdddddaaaabbbbbbbbbbbSSS")
body InstructionRule.shl = braced (
    arm ((b'd', reg ∷ null ∷ []) ∷ (b'a', reg ∷ []) ∷ (b'b', reg ∷ []) ∷ (b'f', imm ∷ []) ∷ []) []
      "0110100000000000ssfdddddaaaabbbb"
    ∷ arm ((b'd', reg ∷ null ∷ []) ∷ (b'a', reg ∷ []) ∷ (b'b', imm ∷ []) ∷ (b'f', imm ∷ []) ∷ []) []
        "0110110000000ssfdddddaaaabbbbbbb"
    ∷ [])
body InstructionRule.shr = braced (
    arm
      ((b'd', reg ∷ null ∷ [])
        ∷ (b'a', reg ∷ [])
        ∷ (b'b', reg ∷ [])
        ∷ (b'A', imm ∷ [])
        ∷ (b'f', imm ∷ [])
        ∷ [])
      [] "011000000000000ssAfdddddaaaabbbb"
    ∷ arm
        ((b'd', reg ∷ null ∷ [])
          ∷ (b'a', reg ∷ [])
          ∷ (b'b', imm ∷ [])
          ∷ (b'A', imm ∷ [])
          ∷ (b'f', imm ∷ [])
          ∷ [])
        [] "011001000000ssAfdddddaaaabbbbbbb"
    ∷ [])
body InstructionRule.rot = braced (
    arm ((b'd', reg ∷ null ∷ []) ∷ (b'a', reg ∷ []) ∷ (b'b', reg ∷ []) ∷ (b'f', imm ∷ []) ∷ []) []
      "0101100000000000ssfdddddaaaabbbb"
    ∷ arm ((b'd', reg ∷ null ∷ []) ∷ (b'a', reg ∷ []) ∷ (b'b', imm ∷ []) ∷ (b'f', imm ∷ []) ∷ []) []
        "0101110000000ssfdddddaaaabbbbbbb"
    ∷ [])
body InstructionRule.neg = bracketed (bits_of "010101000000000000000ssfddddaaaa")
body InstructionRule.bswap = bracketed (bits_of "010100000000000000000ssfddddaaaa")
body InstructionRule.soc = bracketed (bits_of "1111000000000ccccBssddddaaaabbbb")
body InstructionRule.sof = bracketed (bits_of "1111010000000000000000ccccssdddd")
body InstructionRule.jmpa = bracketed (bits_of "010011000000000000000000ccccaaaa")
body InstructionRule.jmpr = braced (
    arm ((b'a', reg ∷ []) ∷ []) [] "010010000000000000000000ccccaaaa"
    ∷ arm ((b'a', imm ∷ []) ∷ []) [] "010001ccccaaaaaaaaaaaaaaaaaaaaaa"
    ∷ [])
body InstructionRule.cjmpa = bracketed (bits_of "00111100000000ccccssaaaabbbbCCCC")
body InstructionRule.cjmpr = braced (
    arm ((b'a', reg ∷ []) ∷ (b'b', reg ∷ []) ∷ (b'C', reg ∷ []) ∷ []) []
      "00110100000000ccccssaaaabbbbCCCC"
    ∷ arm ((b'a', imm ∷ []) ∷ (b'b', reg ∷ []) ∷ (b'C', reg ∷ []) ∷ []) []
        "11111ccccssbbbbCCCCaaaaaaaaaaaaa"
    ∷ [])
body InstructionRule.calla = bracketed (bits_of "001010000000000000000000ccccaaaa")
body InstructionRule.callr = braced (
    arm ((b'a', reg ∷ []) ∷ []) [] "001001000000000000000000ccccaaaa"
    ∷ arm ((b'a', imm ∷ []) ∷ []) [] "001000ccccaaaaaaaaaaaaaaaaaaaaaa"
    ∷ [])
body InstructionRule.ret = bracketed (bits_of "00011100000000000000000000000000")
body InstructionRule.eret = bracketed (bits_of "00011000000000000000000000000000")
body InstructionRule.udf = bracketed (bits_of "00000000000000000000000000000000")
body InstructionRule.dbg = bracketed (bits_of "00001000000000000000000000000000")
body InstructionRule.exc = bracketed (bits_of "0000110000000000aaaaaaaaaaaaaaaa")
body InstructionRule.nop = bracketed (bits_of "00000100000000000000000000000000")
body InstructionRule.ldm = bracketed (bits_of "000100ddddaaaaaaaaaaaaaaaaaaaaaa")
body InstructionRule.stm = bracketed (bits_of "000101aaaadddddddddddddddddddddd")
body InstructionRule.pseudo_cmp_reg = bracketed (bits_of "101000000000000ssB111111aaaabbbb")
body InstructionRule.pseudo_cmp_imm = bracketed (bits_of "1001ssB111111aaaaASSSbbbbbbbbbbb")
