-- ===== src/Emu/Isolation/Flags.antt =====
-- Setting condition flags keeps the mode bits, and writing registers keeps the system part.
use acca.Prelude.{
  ℕ, suc, ◌≤◌, ◌≡◌, refl, ◌∙◌, arith, Bool, true, false, Option, none, some, not, ◌==◌,
  if◌then◌else◌,
}
use acca.Emu.Util.Bit.{bit_as_bool, set_bit_with_bool}
use acca.Emu.Util.Size.{Size}
use acca.Emu.Util.Flags.{set_carry, set_sign}
use acca.Emu.State.{Vm}
use acca.Emu.Memory.{set_sized_register, set_destination}
use acca.Emu.Arithmetic.{
  Outcome, with_outcome, add_with, sub_with, set_zero_and_sign, with_zero_and_sign,
}
use acca.Emu.Logic.{logic_flags, logic_with, shift_flags, shl_with, shr_with, rot_with}
use acca.Emu.Isolation.System.{
  system, KeepsMode, set_bit_with_bool-KeepsMode, KeepsMode-trans, system-flags,
}

pub system-set_sized_register :
    (vm : Vm) (id : ℕ) (size : Size) (value : ℕ)
    → system (set_sized_register vm id size value) ≡ system vm
unfolding set_sized_register
system-set_sized_register vm id size value = refl

pub system-set_destination :
    (vm : Vm) (dst : Option ℕ) (size : Size) (value : ℕ)
    → system (set_destination vm dst size value) ≡ system vm
unfolding set_destination
system-set_destination vm none size value = refl
system-set_destination vm (some id) size value = system-set_sized_register vm id size value

-- Up to four condition flags in a row.
then_bit :
    (flags new i : ℕ) (value : Bool)
    → KeepsMode flags new
    → suc i ≤ 4
    → KeepsMode flags (set_bit_with_bool new i value)
then_bit flags new i value h lt =
    KeepsMode-trans flags new _ h (set_bit_with_bool-KeepsMode new i value lt)

set_zero_and_sign-KeepsMode :
    (flags : ℕ) (size : Size) (result : ℕ) → KeepsMode flags (set_zero_and_sign flags size result)
set_zero_and_sign-KeepsMode flags size result =
    then_bit flags _ 3 _ (set_bit_with_bool-KeepsMode flags 1 _ (omega arith)) (omega arith)

with_outcome-KeepsMode : (flags : ℕ) (out : Outcome) → KeepsMode flags (with_outcome flags out)
with_outcome-KeepsMode flags out =
    then_bit flags _ 3 _
      (then_bit flags _ 2 _
        (then_bit flags _ 1 _ (set_bit_with_bool-KeepsMode flags 0 _ (omega arith)) (omega arith))
        (omega arith))
      (omega arith)

logic_flags-KeepsMode :
    (flags : ℕ) (size : Size) (result : ℕ) → KeepsMode flags (logic_flags flags size result)
unfolding logic_flags
logic_flags-KeepsMode flags size result =
    then_bit flags _ 3 _
      (then_bit flags _ 1 _ (set_bit_with_bool-KeepsMode flags 2 _ (omega arith)) (omega arith))
      (omega arith)

carried-KeepsMode :
    (flags : ℕ) (b value : Bool) → KeepsMode flags (if b then set_carry flags value else flags)
carried-KeepsMode flags true value = set_bit_with_bool-KeepsMode flags 0 value (omega arith)
carried-KeepsMode flags false value = (refl, refl)

shift_flags-KeepsMode :
    (flags : ℕ) (size : Size) (lhs rhs out result : ℕ)
    → KeepsMode flags (shift_flags flags size lhs rhs out result)
unfolding shift_flags
shift_flags-KeepsMode flags size lhs rhs out result =
    KeepsMode-trans flags _ _ (carried-KeepsMode flags (not (rhs == 0)) (bit_as_bool lhs out))
      (logic_flags-KeepsMode _ size result)

-- The flags are written after the destination, if at all.
then_flags :
    (vm written : Vm) (set_flags : Bool) (flags : ℕ)
    → KeepsMode written.flags flags
    → system written ≡ system vm
    → system (if set_flags then record written { flags = flags } else written) ≡ system vm
then_flags vm written true flags h e = system-flags written flags h ∙ e
then_flags vm written false flags h e = e

pub system-with_zero_and_sign :
    (vm written : Vm) (set_flags : Bool) (size : Size) (result : ℕ)
    → system written ≡ system vm
    → system (with_zero_and_sign written set_flags size result) ≡ system vm
unfolding with_zero_and_sign
system-with_zero_and_sign vm written set_flags size result e =
    then_flags vm written set_flags _ (set_zero_and_sign-KeepsMode _ size result) e

pub system-with_sign :
    (vm written : Vm) (set_flags value : Bool)
    → system written ≡ system vm
    → system
        (if set_flags then record written { flags = set_sign written.flags value } else written)
      ≡ system vm
system-with_sign vm written set_flags value e =
    then_flags vm written set_flags _ (set_bit_with_bool-KeepsMode _ 3 value (omega arith)) e

module _ (size : Size) (dst : Option ℕ) (lhs rhs : ℕ) where
  pub system-add_with :
      (carry set_flags : Bool) (vm : Vm)
      → system (add_with size dst lhs rhs carry set_flags vm) ≡ system vm
  unfolding add_with
  system-add_with carry set_flags vm =
      then_flags vm _ set_flags _ (with_outcome-KeepsMode _ _)
        (system-set_destination vm dst size _)

  pub system-sub_with :
      (borrow set_flags : Bool) (vm : Vm)
      → system (sub_with size dst lhs rhs borrow set_flags vm) ≡ system vm
  unfolding sub_with
  system-sub_with borrow set_flags vm =
      then_flags vm _ set_flags _ (with_outcome-KeepsMode _ _)
        (system-set_destination vm dst size _)

  pub system-logic_with :
      (op : ℕ → ℕ → ℕ) (set_flags : Bool) (vm : Vm)
      → system (logic_with op size dst lhs rhs set_flags vm) ≡ system vm
  unfolding logic_with
  system-logic_with op set_flags vm =
      then_flags vm _ set_flags _ (logic_flags-KeepsMode _ size _)
        (system-set_destination vm dst size _)

  pub system-shl_with :
      (set_flags : Bool) (vm : Vm) → system (shl_with size dst lhs rhs set_flags vm) ≡ system vm
  unfolding shl_with
  system-shl_with set_flags vm =
      then_flags vm _ set_flags _ (shift_flags-KeepsMode _ size _ _ _ _)
        (system-set_destination vm dst size _)

  pub system-shr_with :
      (signed set_flags : Bool) (vm : Vm)
      → system (shr_with size dst lhs rhs signed set_flags vm) ≡ system vm
  unfolding shr_with
  system-shr_with signed set_flags vm =
      then_flags vm _ set_flags _ (shift_flags-KeepsMode _ size _ _ _ _)
        (system-set_destination vm dst size _)

  pub system-rot_with :
      (set_flags : Bool) (vm : Vm) → system (rot_with size dst lhs rhs set_flags vm) ≡ system vm
  unfolding rot_with
  system-rot_with set_flags vm =
      system-with_sign vm _ set_flags _ (system-set_destination vm dst size _)
