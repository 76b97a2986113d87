-- ===== src/Emu/Instruction/Syntax.antt =====
-- The instructions of acca-emu/src/vm.rs with decoded operands.
use acca.Prelude.{ℕ, Bool, Option}
use acca.Emu.Util.Size.{Size}
use acca.Emu.Util.Flags.{Condition}

-- An instruction with its operands; a register or condition that may be null is an `Option`.
pub data Instruction : Type 0 where
  pushs : Size → Option ℕ → Instruction
  pushp : Size → Option ℕ → Option ℕ → Instruction
  pops : Size → Option ℕ → Instruction
  popp : Size → Option ℕ → Option ℕ → Instruction
  lds : Size → ℕ → ℕ → Instruction
  ldp : Size → ℕ → ℕ → ℕ → Instruction
  sts : Size → ℕ → ℕ → Instruction
  stp : Size → ℕ → ℕ → ℕ → Instruction
  ldi : ℕ → ℕ → ℕ → ℕ → Instruction
  ldr : ℕ → ℕ → Instruction
  copy : Size → ℕ → ℕ → Instruction
  add_reg : Size → Option ℕ → ℕ → ℕ → Bool → Bool → Instruction
  add_imm : Size → Option ℕ → ℕ → ℕ → ℕ → Bool → Bool → Bool → Instruction
  sub_reg : Size → Option ℕ → ℕ → ℕ → Bool → Bool → Instruction
  sub_imm : Size → Option ℕ → ℕ → ℕ → ℕ → Bool → Bool → Bool → Instruction
  mul : Size → Size → ℕ → ℕ → ℕ → Bool → Bool → Instruction
  div : Size → ℕ → ℕ → ℕ → ℕ → Bool → Bool → Instruction
  and_reg : Size → Option ℕ → ℕ → ℕ → Bool → Instruction
  and_imm : Size → Option ℕ → ℕ → ℕ → ℕ → Bool → Bool → Instruction
  or_reg : Size → Option ℕ → ℕ → ℕ → Bool → Instruction
  or_imm : Size → Option ℕ → ℕ → ℕ → ℕ → Bool → Bool → Instruction
  xor_reg : Size → Option ℕ → ℕ → ℕ → Bool → Instruction
  xor_imm : Size → Option ℕ → ℕ → ℕ → ℕ → Bool → Bool → Instruction
  shl_reg : Size → Option ℕ → ℕ → ℕ → Bool → Instruction
  shl_imm : Size → Option ℕ → ℕ → ℕ → Bool → Instruction
  shr_reg : Size → Option ℕ → ℕ → ℕ → Bool → Bool → Instruction
  shr_imm : Size → Option ℕ → ℕ → ℕ → Bool → Bool → Instruction
  rot_reg : Size → Option ℕ → ℕ → ℕ → Bool → Instruction
  rot_imm : Size → Option ℕ → ℕ → ℕ → Bool → Instruction
  neg : Size → ℕ → ℕ → Bool → Instruction
  bswap : Size → ℕ → ℕ → Bool → Instruction
  soc : Size → ℕ → ℕ → ℕ → Condition → Bool → Instruction
  sof : Size → ℕ → Condition → Instruction
  jmpa : Option Condition → ℕ → Instruction
  jmpr_reg : Option Condition → ℕ → Instruction
  jmpr_imm : Option Condition → ℕ → Instruction
  cjmpa : Condition → Size → ℕ → ℕ → ℕ → Instruction
  cjmpr_reg : Condition → Size → ℕ → ℕ → ℕ → Instruction
  cjmpr_imm : Condition → Size → ℕ → ℕ → ℕ → Instruction
  calla : Option Condition → ℕ → Instruction
  callr_reg : Option Condition → ℕ → Instruction
  callr_imm : Option Condition → ℕ → Instruction
  ret : Instruction
  eret : Instruction
  udf : Instruction
  dbg : Instruction
  exc : ℕ → Instruction
  nop : Instruction
  ldm : ℕ → ℕ → Instruction
  stm : ℕ → ℕ → Instruction
