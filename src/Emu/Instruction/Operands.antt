-- ===== src/Emu/Instruction/Operands.antt =====
-- The operands that `instructions!` of acca-emu-proc-macro/src/lib.rs reads, by their types.
use acca.Prelude.{ℕ, bit_and, not, Option, none, some, ltb, ◌==◌, if◌then◌else◌}
use acca.Emu.Util.Bit.{sign_extend_immediate}
use acca.Emu.Util.Size.{size_from}
use acca.Emu.Util.Register.{register_from}
use acca.Emu.Util.Flags.{Condition, condition_from}
use acca.Emu.Instruction.Encodings.{Opcode}
use acca.Emu.Instruction.Syntax.{Instruction}

infixl 5 ◌>>=◌
abbrev ◌>>=◌ : {A B : Type 0} → Option A → (A → Option B) → Option B
none >>= f = none
some a >>= f = f a

-- `none` is the source's `unreachable!`.
abbrev pub nullable_register : ℕ → Option (Option ℕ)
nullable_register value =
    if ltb value 16 then some (some value) else if value == 31 then some none else none

abbrev pub nullable_condition : ℕ → Option (Option Condition)
nullable_condition value =
    if value == 15 then some none else (condition_from value >>= λ cond. some (some cond))

-- The operands, from the values of the encoding's variables; `none` is a panic.
unfoldable pub operands : Opcode → (ℕ → ℕ) → Option Instruction
operands Opcode.pushs value = do
  size ← size_from (value b's')
  src ← nullable_register (value b'a')
  some (Instruction.pushs size src)
operands Opcode.pushp value = do
  size ← size_from (value b's')
  src1 ← nullable_register (value b'a')
  src2 ← nullable_register (value b'b')
  some (Instruction.pushp size src1 src2)
operands Opcode.pops value = do
  size ← size_from (value b's')
  dst ← nullable_register (value b'a')
  some (Instruction.pops size dst)
operands Opcode.popp value = do
  size ← size_from (value b's')
  dst1 ← nullable_register (value b'a')
  dst2 ← nullable_register (value b'b')
  some (Instruction.popp size dst1 dst2)
operands Opcode.lds value = do
  size ← size_from (value b's')
  dst ← register_from (value b'd')
  src_addr ← register_from (value b'a')
  some (Instruction.lds size dst src_addr)
operands Opcode.ldp value = do
  size ← size_from (value b's')
  dst1 ← register_from (value b'd')
  dst2 ← register_from (value b'e')
  src_addr ← register_from (value b'a')
  some (Instruction.ldp size dst1 dst2 src_addr)
operands Opcode.sts value = do
  size ← size_from (value b's')
  dst_addr ← register_from (value b'a')
  src ← register_from (value b'b')
  some (Instruction.sts size dst_addr src)
operands Opcode.stp value = do
  size ← size_from (value b's')
  dst_addr ← register_from (value b'a')
  src1 ← register_from (value b'b')
  src2 ← register_from (value b'c')
  some (Instruction.stp size dst_addr src1 src2)
operands Opcode.ldi value = do
  dst ← register_from (value b'd')
  let src = value b'a'
  let shift = value b'b'
  let clear = value b'c'
  some (Instruction.ldi dst src shift clear)
operands Opcode.ldr value = do
  dst ← register_from (value b'd')
  let src = sign_extend_immediate (value b'a') 22
  some (Instruction.ldr dst src)
operands Opcode.copy value = do
  size ← size_from (value b's')
  dst ← register_from (value b'd')
  src ← register_from (value b'S')
  some (Instruction.copy size dst src)
operands Opcode.add_reg value = do
  size ← size_from (value b's')
  dst ← nullable_register (value b'd')
  lhs ← register_from (value b'a')
  rhs ← register_from (value b'b')
  let carry = not (bit_and (value b'c') 1 == 0)
  let set_flags = not (bit_and (value b'f') 1 == 0)
  some (Instruction.add_reg size dst lhs rhs carry set_flags)
operands Opcode.add_imm value = do
  size ← size_from (value b's')
  dst ← nullable_register (value b'd')
  lhs ← register_from (value b'a')
  let rhs = value b'b'
  let shift_factor = value b'S'
  let sign_extend = not (bit_and (value b'A') 1 == 0)
  let carry = not (bit_and (value b'c') 1 == 0)
  let set_flags = not (bit_and (value b'f') 1 == 0)
  some (Instruction.add_imm size dst lhs rhs shift_factor sign_extend carry set_flags)
operands Opcode.sub_reg value = do
  size ← size_from (value b's')
  dst ← nullable_register (value b'd')
  lhs ← register_from (value b'a')
  rhs ← register_from (value b'b')
  let borrow = not (bit_and (value b'B') 1 == 0)
  let set_flags = not (bit_and (value b'f') 1 == 0)
  some (Instruction.sub_reg size dst lhs rhs borrow set_flags)
operands Opcode.sub_imm value = do
  size ← size_from (value b's')
  dst ← nullable_register (value b'd')
  lhs ← register_from (value b'a')
  let rhs = value b'b'
  let shift_factor = value b'S'
  let sign_extend = not (bit_and (value b'A') 1 == 0)
  let borrow = not (bit_and (value b'B') 1 == 0)
  let set_flags = not (bit_and (value b'f') 1 == 0)
  some (Instruction.sub_imm size dst lhs rhs shift_factor sign_extend borrow set_flags)
operands Opcode.mul value = do
  src_size ← size_from (value b's')
  dst_size ← size_from (value b't')
  dst ← register_from (value b'd')
  lhs ← register_from (value b'a')
  rhs ← register_from (value b'b')
  let signed = not (bit_and (value b'S') 1 == 0)
  let set_flags = not (bit_and (value b'f') 1 == 0)
  some (Instruction.mul src_size dst_size dst lhs rhs signed set_flags)
operands Opcode.div value = do
  size ← size_from (value b's')
  quot ← register_from (value b'd')
  rem ← register_from (value b'r')
  lhs ← register_from (value b'a')
  rhs ← register_from (value b'b')
  let signed = not (bit_and (value b'S') 1 == 0)
  let set_flags = not (bit_and (value b'f') 1 == 0)
  some (Instruction.div size quot rem lhs rhs signed set_flags)
operands Opcode.and_reg value = do
  size ← size_from (value b's')
  dst ← nullable_register (value b'd')
  lhs ← register_from (value b'a')
  rhs ← register_from (value b'b')
  let set_flags = not (bit_and (value b'f') 1 == 0)
  some (Instruction.and_reg size dst lhs rhs set_flags)
operands Opcode.and_imm value = do
  size ← size_from (value b's')
  dst ← nullable_register (value b'd')
  lhs ← register_from (value b'a')
  let rhs = value b'b'
  let shift_factor = value b'S'
  let sign_extend = not (bit_and (value b'A') 1 == 0)
  let set_flags = not (bit_and (value b'f') 1 == 0)
  some (Instruction.and_imm size dst lhs rhs shift_factor sign_extend set_flags)
operands Opcode.or_reg value = do
  size ← size_from (value b's')
  dst ← nullable_register (value b'd')
  lhs ← register_from (value b'a')
  rhs ← register_from (value b'b')
  let set_flags = not (bit_and (value b'f') 1 == 0)
  some (Instruction.or_reg size dst lhs rhs set_flags)
operands Opcode.or_imm value = do
  size ← size_from (value b's')
  dst ← nullable_register (value b'd')
  lhs ← register_from (value b'a')
  let rhs = value b'b'
  let shift_factor = value b'S'
  let sign_extend = not (bit_and (value b'A') 1 == 0)
  let set_flags = not (bit_and (value b'f') 1 == 0)
  some (Instruction.or_imm size dst lhs rhs shift_factor sign_extend set_flags)
operands Opcode.xor_reg value = do
  size ← size_from (value b's')
  dst ← nullable_register (value b'd')
  lhs ← register_from (value b'a')
  rhs ← register_from (value b'b')
  let set_flags = not (bit_and (value b'f') 1 == 0)
  some (Instruction.xor_reg size dst lhs rhs set_flags)
operands Opcode.xor_imm value = do
  size ← size_from (value b's')
  dst ← nullable_register (value b'd')
  lhs ← register_from (value b'a')
  let rhs = value b'b'
  let shift_factor = value b'S'
  let sign_extend = not (bit_and (value b'A') 1 == 0)
  let set_flags = not (bit_and (value b'f') 1 == 0)
  some (Instruction.xor_imm size dst lhs rhs shift_factor sign_extend set_flags)
operands Opcode.shl_reg value = do
  size ← size_from (value b's')
  dst ← nullable_register (value b'd')
  lhs ← register_from (value b'a')
  rhs ← register_from (value b'b')
  let set_flags = not (bit_and (value b'f') 1 == 0)
  some (Instruction.shl_reg size dst lhs rhs set_flags)
operands Opcode.shl_imm value = do
  size ← size_from (value b's')
  dst ← nullable_register (value b'd')
  lhs ← register_from (value b'a')
  let rhs = value b'b'
  let set_flags = not (bit_and (value b'f') 1 == 0)
  some (Instruction.shl_imm size dst lhs rhs set_flags)
operands Opcode.shr_reg value = do
  size ← size_from (value b's')
  dst ← nullable_register (value b'd')
  lhs ← register_from (value b'a')
  rhs ← register_from (value b'b')
  let signed = not (bit_and (value b'A') 1 == 0)
  let set_flags = not (bit_and (value b'f') 1 == 0)
  some (Instruction.shr_reg size dst lhs rhs signed set_flags)
operands Opcode.shr_imm value = do
  size ← size_from (value b's')
  dst ← nullable_register (value b'd')
  lhs ← register_from (value b'a')
  let rhs = value b'b'
  let signed = not (bit_and (value b'A') 1 == 0)
  let set_flags = not (bit_and (value b'f') 1 == 0)
  some (Instruction.shr_imm size dst lhs rhs signed set_flags)
operands Opcode.rot_reg value = do
  size ← size_from (value b's')
  dst ← nullable_register (value b'd')
  lhs ← register_from (value b'a')
  rhs ← register_from (value b'b')
  let set_flags = not (bit_and (value b'f') 1 == 0)
  some (Instruction.rot_reg size dst lhs rhs set_flags)
operands Opcode.rot_imm value = do
  size ← size_from (value b's')
  dst ← nullable_register (value b'd')
  lhs ← register_from (value b'a')
  let rhs = value b'b'
  let set_flags = not (bit_and (value b'f') 1 == 0)
  some (Instruction.rot_imm size dst lhs rhs set_flags)
operands Opcode.neg value = do
  size ← size_from (value b's')
  dst ← register_from (value b'd')
  src ← register_from (value b'a')
  let set_flags = not (bit_and (value b'f') 1 == 0)
  some (Instruction.neg size dst src set_flags)
operands Opcode.bswap value = do
  size ← size_from (value b's')
  dst ← register_from (value b'd')
  src ← register_from (value b'a')
  let set_flags = not (bit_and (value b'f') 1 == 0)
  some (Instruction.bswap size dst src set_flags)
operands Opcode.soc value = do
  size ← size_from (value b's')
  dst ← register_from (value b'd')
  lhs ← register_from (value b'a')
  rhs ← register_from (value b'b')
  cond ← condition_from (value b'c')
  let borrow = not (bit_and (value b'B') 1 == 0)
  some (Instruction.soc size dst lhs rhs cond borrow)
operands Opcode.sof value = do
  size ← size_from (value b's')
  dst ← register_from (value b'd')
  cond ← condition_from (value b'c')
  some (Instruction.sof size dst cond)
operands Opcode.jmpa value = do
  cond ← nullable_condition (value b'c')
  addr ← register_from (value b'a')
  some (Instruction.jmpa cond addr)
operands Opcode.jmpr_reg value = do
  cond ← nullable_condition (value b'c')
  addr ← register_from (value b'a')
  some (Instruction.jmpr_reg cond addr)
operands Opcode.jmpr_imm value = do
  cond ← nullable_condition (value b'c')
  let addr = sign_extend_immediate (value b'a') 22
  some (Instruction.jmpr_imm cond addr)
operands Opcode.cjmpa value = do
  cond ← condition_from (value b'c')
  size ← size_from (value b's')
  addr ← register_from (value b'a')
  lhs ← register_from (value b'b')
  rhs ← register_from (value b'C')
  some (Instruction.cjmpa cond size addr lhs rhs)
operands Opcode.cjmpr_reg value = do
  cond ← condition_from (value b'c')
  size ← size_from (value b's')
  addr ← register_from (value b'a')
  lhs ← register_from (value b'b')
  rhs ← register_from (value b'C')
  some (Instruction.cjmpr_reg cond size addr lhs rhs)
operands Opcode.cjmpr_imm value = do
  cond ← condition_from (value b'c')
  size ← size_from (value b's')
  let addr = sign_extend_immediate (value b'a') 13
  lhs ← register_from (value b'b')
  rhs ← register_from (value b'C')
  some (Instruction.cjmpr_imm cond size addr lhs rhs)
operands Opcode.calla value = do
  cond ← nullable_condition (value b'c')
  addr ← register_from (value b'a')
  some (Instruction.calla cond addr)
operands Opcode.callr_reg value = do
  cond ← nullable_condition (value b'c')
  addr ← register_from (value b'a')
  some (Instruction.callr_reg cond addr)
operands Opcode.callr_imm value = do
  cond ← nullable_condition (value b'c')
  let addr = sign_extend_immediate (value b'a') 22
  some (Instruction.callr_imm cond addr)
operands Opcode.ret value = some Instruction.ret
operands Opcode.eret value = some Instruction.eret
operands Opcode.udf value = some Instruction.udf
operands Opcode.dbg value = some Instruction.dbg
operands Opcode.exc value = do let val = value b'a'; some (Instruction.exc val)
operands Opcode.nop value = some Instruction.nop
operands Opcode.ldm value = do
  dst ← register_from (value b'd')
  let src_mreg = value b'a'
  some (Instruction.ldm dst src_mreg)
operands Opcode.stm value = do
  let dst_mreg = value b'd'
  src ← register_from (value b'a')
  some (Instruction.stm dst_mreg src)
