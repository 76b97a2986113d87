-- ===== src/Emu/Tests/Values.antt =====
-- The operations on values at concrete operands.
use acca.Prelude.{
  ◌+◌, ◌*◌, ◌/◌, ◌%◌, ◌^◌, ◌≡◌, ◌≢◌, arith, true, false, xor, ◌||◌, some, [], ltb, leb, ◌==◌,
}
use acca.Word.{wrapping_add, wrapping_sub}
use acca.Emu.Util.Size.{byte, double_byte, word}
use acca.Emu.Util.Register.{get_unsigned, set_sized}
use acca.Emu.Util.Register.Sized.{get_unsigned-set_sized}
use acca.Emu.Util.Flags.{if_c, if_z, if_l}
use acca.Emu.Exception.{data_load_error, exception_info}
use acca.Emu.Exception.Info.{exception_info_lem}
use acca.Emu.Arithmetic.{add_outcome, sub_outcome, compare_registers}
use acca.Emu.Arithmetic.Conditions.{low, add_outcome_lem, sub_outcome_lem}
use acca.Emu.Arithmetic.Comparison.{compare_registers_lem}
use acca.Emu.Logic.{shr_with}
use acca.Emu.Logic.Shifts.{shr_with-narrow}
use acca.Emu.Tests.Concrete.{concrete, user_vm}

get_unsigned-set_sized_example :
    (get_unsigned (set_sized 0x1234 byte 0xabcd) byte ≡ 0xabcd % 2 ^ 8)
    × (set_sized 0x1234 byte 0xabcd / 2 ^ 8 ≡ 0x1234 / 2 ^ 8)
get_unsigned-set_sized_example = get_unsigned-set_sized 0x1234 0xabcd byte (omega arith)

exception_info_lem_example :
    (exception_info (data_load_error 64 true 8) % 8 ≡ 6)
    × (exception_info (data_load_error 64 true 8) / 8 ≡ 1 + 2 * 8)
exception_info_lem_example = exception_info_lem (data_load_error 64 true 8) (omega arith)

add_outcome_lem_example :
    let out = add_outcome byte 0x7f 1 (wrapping_add (wrapping_add 0x7f 1) 1) in
    (out.carry_bit ≡ leb 256 129)
    × (out.zero_bit ≡ (129 % 256 == 0))
    × (out.overflow_bit ≡ (ltb 385 128 || leb 384 385))
    × (out.sign_bit ≡ leb 128 (129 % 256))
add_outcome_lem_example = add_outcome_lem byte 0x7f 1 1 (omega arith)

sub_outcome_lem_example :
    let result = wrapping_sub (wrapping_sub 0x80 1) 0 in
    let out = sub_outcome byte 0x80 1 result in
    (out.carry_bit ≡ ltb 0x80 1)
    × (out.zero_bit ≡ (0x80 == 1 % 256))
    × (out.overflow_bit ≡ (ltb 128 129 || leb 257 0))
    × (out.sign_bit ≡ leb 128 (low byte result))
    × (xor out.sign_bit out.overflow_bit ≡ ltb 0 129)
sub_outcome_lem_example = sub_outcome_lem byte 0x80 1 0 (omega arith) (omega arith)

compare_registers_lem_example :
    (compare_registers byte 0 1 false if_c (user_vm []) ≡ ltb 7 0x34)
    × (compare_registers byte 0 1 false if_z (user_vm []) ≡ (7 == 0x34))
    × (compare_registers byte 0 1 false if_l (user_vm []) ≡ ltb 135 0xb4)
compare_registers_lem_example = compare_registers_lem byte 0 1 (user_vm [])

not_word : double_byte ≢ word
not_word h = cc

shr_with-narrow_example :
    shr_with double_byte (some 2) 1 3 true true (user_vm [])
    ≡ shr_with double_byte (some 2) 1 3 false true (user_vm [])
shr_with-narrow_example =
    shr_with-narrow double_byte (some 2) 1 3 true (user_vm []) not_word (omega arith)
