-- ===== src/Emu/Logic/Shifts.antt =====
-- `shr` with and without the sign.
use acca.Prelude.{ℕ, ◌^◌, ◌<◌, ◌≡◌, ◌≢◌, refl, arith, Bool, true, false, Option, lt→ltb}
use acca.Emu.Util.Size.{Size, byte, double_byte, quad_byte, word, bit_size}
use acca.Emu.Util.Register.{get_unsigned}
use acca.Emu.Util.Register.Sized.{get_unsigned_lem}
use acca.Emu.State.{Vm, register}
use acca.Emu.Logic.{shr_value, shr_with}

narrow : (size : Size) (x : ℕ) → size ≢ word → get_unsigned x size < 2 ^ 63
narrow byte x h = rw get_unsigned_lem (omega arith)
narrow double_byte x h = rw get_unsigned_lem (omega arith)
narrow quad_byte x h = rw get_unsigned_lem (omega arith)
narrow word x h = absurd (h refl)

shr_value-narrow :
    (size : Size) (left rhs : ℕ)
    → left < 2 ^ 63
    → rhs < bit_size size
    → shr_value size true left rhs ≡ shr_value size false left rhs
unfolding shr_value
shr_value-narrow size left rhs h h' =
    rw (lt→ltb rhs (bit_size size) h', lt→ltb left (2 ^ 63) h) refl

-- At the sizes below a word a signed `shr` by less than the width does what the unsigned one
-- does: the sign bit of the operand is not copied in.
pub shr_with-narrow :
    (size : Size) (dst : Option ℕ) (lhs rhs : ℕ) (set_flags : Bool) (vm : Vm)
    → size ≢ word
    → rhs < bit_size size
    → shr_with size dst lhs rhs true set_flags vm ≡ shr_with size dst lhs rhs false set_flags vm
unfolding shr_with
shr_with-narrow size dst lhs rhs set_flags vm h h' =
    rw
      (
        shr_with,
        shr_value-narrow size (get_unsigned (register vm lhs) size) rhs (narrow size _ h) h',
      )
      refl
