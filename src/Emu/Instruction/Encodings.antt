-- ===== src/Emu/Instruction/Encodings.antt =====
-- The match arms of `execute_one` in acca-emu/src/vm.rs, with their encodings.
use acca.Prelude.{List, [], ◌∷◌}
use acca.Encoding.Scan.{InstructionBit, bits_of}

-- One constructor for each match arm.
pub data Opcode : Type 0 where
  pushs pushp pops popp lds ldp sts stp ldi ldr copy add_reg add_imm sub_reg sub_imm mul div and_reg
        and_imm or_reg or_imm xor_reg xor_imm shl_reg shl_imm shr_reg shr_imm rot_reg rot_imm neg
        bswap soc sof jmpa jmpr_reg jmpr_imm cjmpa cjmpr_reg cjmpr_imm calla callr_reg callr_imm ret
        eret udf dbg exc nop ldm stm :
      Opcode

-- The encodings.
unfoldable pub encoding : Opcode → List InstructionBit
encoding pushs = bits_of "1101110000000000000000000ssaaaaa"
encoding pushp = bits_of "11011000000000000000ssaaaaabbbbb"
encoding pops = bits_of "1101010000000000000000000ssaaaaa"
encoding popp = bits_of "11010000000000000000ssaaaaabbbbb"
encoding lds = bits_of "1100110000000000000000ssddddaaaa"
encoding ldp = bits_of "110010000000000000ssddddeeeeaaaa"
encoding sts = bits_of "1100010000000000000000ssaaaabbbb"
encoding stp = bits_of "110000000000000000ssaaaabbbbcccc"
encoding ldi = bits_of "1110ccaaaaaaaaaaaaaaaabbbbbbdddd"
encoding ldr = bits_of "001100ddddaaaaaaaaaaaaaaaaaaaaaa"
encoding copy = bits_of "1010100000000000000000ssddddSSSS"
encoding add_reg = bits_of "101001000000000sscfdddddaaaabbbb"
encoding add_imm = bits_of "1011sscfdddddaaaaASSSbbbbbbbbbbb"
encoding sub_reg = bits_of "101000000000000ssBfdddddaaaabbbb"
encoding sub_imm = bits_of "1001ssBfdddddaaaaASSSbbbbbbbbbbb"
encoding mul = bits_of "10001100000000ssttSfddddaaaabbbb"
encoding div = bits_of "100010000000ssSfddddrrrraaaabbbb"
encoding and_reg = bits_of "1010110000000000ssfdddddaaaabbbb"
encoding and_imm = bits_of "10000AssfdddddaaaabbbbbbbbbbbSSS"
encoding or_reg = bits_of "0100000000000000ssfdddddaaaabbbb"
encoding or_imm = bits_of "01111AssfdddddaaaabbbbbbbbbbbSSS"
encoding xor_reg = bits_of "0011100000000000ssfdddddaaaabbbb"
encoding xor_imm = bits_of "01110AssfdddddaaaabbbbbbbbbbbSSS"
encoding shl_reg = bits_of "0110100000000000ssfdddddaaaabbbb"
encoding shl_imm = bits_of "0110110000000ssfdddddaaaabbbbbbb"
encoding shr_reg = bits_of "011000000000000ssAfdddddaaaabbbb"
encoding shr_imm = bits_of "011001000000ssAfdddddaaaabbbbbbb"
encoding rot_reg = bits_of "0101100000000000ssfdddddaaaabbbb"
encoding rot_imm = bits_of "0101110000000ssfdddddaaaabbbbbbb"
encoding neg = bits_of "010101000000000000000ssfddddaaaa"
encoding bswap = bits_of "010100000000000000000ssfddddaaaa"
encoding soc = bits_of "1111000000000ccccBssddddaaaabbbb"
encoding sof = bits_of "1111010000000000000000ccccssdddd"
encoding jmpa = bits_of "010011000000000000000000ccccaaaa"
encoding jmpr_reg = bits_of "010010000000000000000000ccccaaaa"
encoding jmpr_imm = bits_of "010001ccccaaaaaaaaaaaaaaaaaaaaaa"
encoding cjmpa = bits_of "00111100000000ccccssaaaabbbbCCCC"
encoding cjmpr_reg = bits_of "00110100000000ccccssaaaabbbbCCCC"
encoding cjmpr_imm = bits_of "11111ccccssbbbbCCCCaaaaaaaaaaaaa"
encoding calla = bits_of "001010000000000000000000ccccaaaa"
encoding callr_reg = bits_of "001001000000000000000000ccccaaaa"
encoding callr_imm = bits_of "001000ccccaaaaaaaaaaaaaaaaaaaaaa"
encoding ret = bits_of "00011100000000000000000000000000"
encoding eret = bits_of "00011000000000000000000000000000"
encoding udf = bits_of "00000000000000000000000000000000"
encoding dbg = bits_of "00001000000000000000000000000000"
encoding exc = bits_of "0000110000000000aaaaaaaaaaaaaaaa"
encoding nop = bits_of "00000100000000000000000000000000"
encoding ldm = bits_of "000100ddddaaaaaaaaaaaaaaaaaaaaaa"
encoding stm = bits_of "000101aaaadddddddddddddddddddddd"

-- The match arms in the order of the source.
abbrev pub opcodes : List Opcode
opcodes =
    pushs ∷ pushp ∷ pops ∷ popp ∷ lds ∷ ldp ∷ sts ∷ stp ∷ ldi ∷ ldr ∷ copy ∷ add_reg ∷ add_imm
    ∷ sub_reg ∷ sub_imm ∷ mul ∷ div ∷ and_reg ∷ and_imm ∷ or_reg ∷ or_imm ∷ xor_reg ∷ xor_imm
    ∷ shl_reg ∷ shl_imm ∷ shr_reg ∷ shr_imm ∷ rot_reg ∷ rot_imm ∷ neg ∷ bswap ∷ soc ∷ sof ∷ jmpa
    ∷ jmpr_reg ∷ jmpr_imm ∷ cjmpa ∷ cjmpr_reg ∷ cjmpr_imm ∷ calla ∷ callr_reg ∷ callr_imm ∷ ret
    ∷ eret ∷ udf ∷ dbg ∷ exc ∷ nop ∷ ldm ∷ stm ∷ []
