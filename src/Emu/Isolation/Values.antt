-- ===== src/Emu/Isolation/Values.antt =====
-- The instructions that compute are contained.
use acca.Prelude.{ℕ, ◌≡◌, refl, ◌∙◌, Bool, true, false, Option, ◌==◌, if◌then◌else◌}
use acca.Emu.Platform.{Platform}
use acca.Emu.Util.Size.{Size}
use acca.Emu.State.{Vm}
use acca.Emu.Memory.{set_sized_register}
use acca.Emu.Arithmetic
use acca.Emu.Arithmetic.{imm11_with_shift_factor, checked_product, quotient_and_remainder}
use acca.Emu.Logic
use acca.Emu.Isolation.System.{system, Ends, ends_ok, ends_panic, Ends-bind, Ends-if, Contained}
use acca.Emu.Isolation.Flags.{
  system-set_sized_register, system-with_zero_and_sign, system-with_sign, system-add_with,
  system-sub_with, system-logic_with, system-shl_with, system-shr_with, system-rot_with,
}

system-kept :
    (same : Bool) (vm : Vm) (id : ℕ) (size : Size) (value : ℕ)
    → system (if same then vm else set_sized_register vm id size value) ≡ system vm
system-kept true vm id size value = refl
system-kept false vm id size value = system-set_sized_register vm id size value

module _ ⦃platform : Platform⦄ where
  imm11-Ends :
      {Q : Vm → Type 0} (imm shift_factor : ℕ) (sign_extend : Bool)
      → Ends (λ _. Unit {0}) Q (imm11_with_shift_factor imm shift_factor sign_extend)
  unfolding imm11_with_shift_factor
  imm11-Ends imm shift_factor sign_extend =
      Ends-if _ ends_panic (Ends-if _ (ends_ok tt) (ends_ok tt))

  module _ (size : Size) (dst : Option ℕ) (lhs rhs : ℕ) where
    pub add_reg-Contained :
        (carry set_flags : Bool) (vm : Vm)
        → Contained vm (Arithmetic.add_reg size dst lhs rhs carry set_flags vm)
    unfolding Arithmetic.add_reg
    add_reg-Contained carry set_flags vm =
        ends_ok (system-add_with size dst lhs _ carry set_flags vm)

    pub sub_reg-Contained :
        (borrow set_flags : Bool) (vm : Vm)
        → Contained vm (Arithmetic.sub_reg size dst lhs rhs borrow set_flags vm)
    unfolding Arithmetic.sub_reg
    sub_reg-Contained borrow set_flags vm =
        ends_ok (system-sub_with size dst lhs _ borrow set_flags vm)

    pub add_imm-Contained :
        (shift_factor : ℕ) (sign_extend carry set_flags : Bool) (vm : Vm)
        → Contained vm
            (Arithmetic.add_imm size dst lhs rhs shift_factor sign_extend carry set_flags vm)
    unfolding Arithmetic.add_imm
    add_imm-Contained shift_factor sign_extend carry set_flags vm =
        Ends-bind (imm11-Ends rhs shift_factor sign_extend)
          (λ right _. ends_ok (system-add_with size dst lhs right carry set_flags vm))

    pub sub_imm-Contained :
        (shift_factor : ℕ) (sign_extend borrow set_flags : Bool) (vm : Vm)
        → Contained vm
            (Arithmetic.sub_imm size dst lhs rhs shift_factor sign_extend borrow set_flags vm)
    unfolding Arithmetic.sub_imm
    sub_imm-Contained shift_factor sign_extend borrow set_flags vm =
        Ends-bind (imm11-Ends rhs shift_factor sign_extend)
          (λ right _. ends_ok (system-sub_with size dst lhs right borrow set_flags vm))

    pub and_reg-Contained :
        (set_flags : Bool) (vm : Vm) → Contained vm (Logic.and_reg size dst lhs rhs set_flags vm)
    unfolding Logic.and_reg
    and_reg-Contained set_flags vm = ends_ok (system-logic_with size dst lhs _ _ set_flags vm)

    pub and_imm-Contained :
        (shift_factor : ℕ) (sign_extend set_flags : Bool) (vm : Vm)
        → Contained vm (Logic.and_imm size dst lhs rhs shift_factor sign_extend set_flags vm)
    unfolding Logic.and_imm
    and_imm-Contained shift_factor sign_extend set_flags vm =
        Ends-bind (imm11-Ends rhs shift_factor sign_extend)
          (λ right _. ends_ok (system-logic_with size dst lhs right _ set_flags vm))

    pub or_reg-Contained :
        (set_flags : Bool) (vm : Vm) → Contained vm (Logic.or_reg size dst lhs rhs set_flags vm)
    unfolding Logic.or_reg
    or_reg-Contained set_flags vm = ends_ok (system-logic_with size dst lhs _ _ set_flags vm)

    pub or_imm-Contained :
        (shift_factor : ℕ) (sign_extend set_flags : Bool) (vm : Vm)
        → Contained vm (Logic.or_imm size dst lhs rhs shift_factor sign_extend set_flags vm)
    unfolding Logic.or_imm
    or_imm-Contained shift_factor sign_extend set_flags vm =
        Ends-bind (imm11-Ends rhs shift_factor sign_extend)
          (λ right _. ends_ok (system-logic_with size dst lhs right _ set_flags vm))

    pub xor_reg-Contained :
        (set_flags : Bool) (vm : Vm) → Contained vm (Logic.xor_reg size dst lhs rhs set_flags vm)
    unfolding Logic.xor_reg
    xor_reg-Contained set_flags vm = ends_ok (system-logic_with size dst lhs _ _ set_flags vm)

    pub xor_imm-Contained :
        (shift_factor : ℕ) (sign_extend set_flags : Bool) (vm : Vm)
        → Contained vm (Logic.xor_imm size dst lhs rhs shift_factor sign_extend set_flags vm)
    unfolding Logic.xor_imm
    xor_imm-Contained shift_factor sign_extend set_flags vm =
        Ends-bind (imm11-Ends rhs shift_factor sign_extend)
          (λ right _. ends_ok (system-logic_with size dst lhs right _ set_flags vm))

    pub shl_reg-Contained :
        (set_flags : Bool) (vm : Vm) → Contained vm (Logic.shl_reg size dst lhs rhs set_flags vm)
    unfolding Logic.shl_reg
    shl_reg-Contained set_flags vm = ends_ok (system-shl_with size dst lhs _ set_flags vm)

    pub shl_imm-Contained :
        (set_flags : Bool) (vm : Vm) → Contained vm (Logic.shl_imm size dst lhs rhs set_flags vm)
    unfolding Logic.shl_imm
    shl_imm-Contained set_flags vm = ends_ok (system-shl_with size dst lhs _ set_flags vm)

    pub rot_reg-Contained :
        (set_flags : Bool) (vm : Vm) → Contained vm (Logic.rot_reg size dst lhs rhs set_flags vm)
    unfolding Logic.rot_reg
    rot_reg-Contained set_flags vm = ends_ok (system-rot_with size dst lhs _ set_flags vm)

    pub rot_imm-Contained :
        (set_flags : Bool) (vm : Vm) → Contained vm (Logic.rot_imm size dst lhs rhs set_flags vm)
    unfolding Logic.rot_imm
    rot_imm-Contained set_flags vm = ends_ok (system-rot_with size dst lhs _ set_flags vm)

    pub shr_reg-Contained :
        (signed set_flags : Bool) (vm : Vm)
        → Contained vm (Logic.shr_reg size dst lhs rhs signed set_flags vm)
    unfolding Logic.shr_reg
    shr_reg-Contained signed set_flags vm =
        ends_ok (system-shr_with size dst lhs _ signed set_flags vm)

    pub shr_imm-Contained :
        (signed set_flags : Bool) (vm : Vm)
        → Contained vm (Logic.shr_imm size dst lhs rhs signed set_flags vm)
    unfolding Logic.shr_imm
    shr_imm-Contained signed set_flags vm =
        ends_ok (system-shr_with size dst lhs _ signed set_flags vm)

  checked_product-Ends :
      {Q : Vm → Type 0} (signed : Bool) (lhs rhs : ℕ)
      → Ends (λ _. Unit {0}) Q (checked_product signed lhs rhs)
  unfolding checked_product
  checked_product-Ends signed lhs rhs = Ends-if _ ends_panic (ends_ok tt)

  quotient_and_remainder-Ends :
      {Q : Vm → Type 0} (signed : Bool) (lhs rhs : ℕ)
      → Ends (λ _. Unit {0}) Q (quotient_and_remainder signed lhs rhs)
  unfolding quotient_and_remainder
  quotient_and_remainder-Ends signed lhs rhs =
      Ends-if _ ends_panic (Ends-if _ (ends_ok tt) (ends_ok tt))

  pub mul-Contained :
      (src_size dst_size : Size) (dst lhs rhs : ℕ) (signed set_flags : Bool) (vm : Vm)
      → Contained vm (Arithmetic.mul src_size dst_size dst lhs rhs signed set_flags vm)
  unfolding Arithmetic.mul
  mul-Contained src_size dst_size dst lhs rhs signed set_flags vm =
      Ends-bind (checked_product-Ends signed _ _) (λ result _. ends_ok (
        system-with_zero_and_sign vm _ set_flags dst_size result
          (system-set_sized_register vm dst dst_size result)))

  pub neg-Contained :
      (size : Size) (dst src : ℕ) (set_flags : Bool) (vm : Vm)
      → Contained vm (Arithmetic.neg size dst src set_flags vm)
  unfolding Arithmetic.neg
  neg-Contained size dst src set_flags vm = Ends-if _ ends_panic (
      ends_ok
        (system-with_zero_and_sign vm _ set_flags size _ (system-set_sized_register vm dst size _)))

  pub div-Contained :
      (size : Size) (quot rem lhs rhs : ℕ) (signed set_flags : Bool) (vm : Vm)
      → Contained vm (Arithmetic.div size quot rem lhs rhs signed set_flags vm)
  unfolding Arithmetic.div
  div-Contained size quot rem lhs rhs signed set_flags vm =
      Ends-bind (quotient_and_remainder-Ends signed _ _) (λ results _. ends_ok (
        system-with_zero_and_sign vm _ set_flags size _
          (system-set_sized_register _ quot size _ ∙ system-kept (quot == rem) vm rem size _)))

  pub bswap-Contained :
      (size : Size) (dst src : ℕ) (set_flags : Bool) (vm : Vm)
      → Contained vm (Logic.bswap size dst src set_flags vm)
  unfolding Logic.bswap
  bswap-Contained size dst src set_flags vm =
      ends_ok (system-with_sign vm _ set_flags _ (system-set_sized_register vm dst size _))
