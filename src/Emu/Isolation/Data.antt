-- ===== src/Emu/Isolation/Data.antt =====
-- The instructions that move data are contained.
use acca.Prelude.{ℕ, refl, ◌∙◌, Bool, Option, List, leb, length, take, drop, inl, inr, Option-cases}
use acca.Word.{wrapping_add}
use acca.Emu.Platform.{Platform}
use acca.Emu.Util.Size.{Size, byte_size}
use acca.Emu.State.{Vm, register}
use acca.Emu.Exception.{data_load_error}
use acca.Emu.Memory
use acca.Emu.Memory.{get_slice, get_memory, kept_bits}
use acca.Emu.Isolation.System.{
  Ends, ends_ok, ends_returned, ends_panic, Ends-bind, Ends-if, Precise, faulting, Contained,
}
use acca.Emu.Isolation.Flags.{system-set_sized_register, system-set_destination}

module _ ⦃platform : Platform⦄ where
  pub get_memory-Ends :
      (write : Bool) (addr size : ℕ) (vm : Vm)
      → Ends (λ _. Unit {0}) (Precise vm) (get_memory write addr size vm)
  unfolding get_memory
  get_memory-Ends write addr size vm =
      elim (Option-cases (get_slice vm.memory addr (wrapping_add addr size))) [
        | inl missing ↦
            rw (missing, get_memory) (ends_returned (faulting (data_load_error addr write size)))
        | inr (bytes, found) ↦ rw (found, get_memory) (ends_ok tt)
      ]

  pub pushs-Contained :
      (size : Size) (src : Option ℕ) (vm : Vm) → Contained vm (Memory.pushs size src vm)
  unfolding Memory.pushs
  pushs-Contained size src vm = Ends-bind (get_memory-Ends _ _ _ vm) (λ _ _. ends_ok refl)

  pub pushp-Contained :
      (size : Size) (src1 src2 : Option ℕ) (vm : Vm) → Contained vm (Memory.pushp size src1 src2 vm)
  unfolding Memory.pushp
  pushp-Contained size src1 src2 vm = Ends-bind (get_memory-Ends _ _ _ vm) (λ _ _. ends_ok refl)

  pub sts-Contained :
      (size : Size) (dst_addr src : ℕ) (vm : Vm) → Contained vm (Memory.sts size dst_addr src vm)
  unfolding Memory.sts
  sts-Contained size dst_addr src vm = Ends-bind (get_memory-Ends _ _ _ vm) (λ _ _. ends_ok refl)

  write_into-Ends :
      (size : Size) (src : ℕ) (dst : List ℕ) {Q : Vm → Type 0}
      → Ends (λ _. Unit {0}) Q (Memory.write_into size src dst)
  unfolding Memory.write_into
  write_into-Ends size src dst = Ends-if (leb (byte_size size) (length dst)) (ends_ok tt) ends_panic

  pub stp-Contained :
      (size : Size) (dst_addr src1 src2 : ℕ) (vm : Vm)
      → Contained vm (Memory.stp size dst_addr src1 src2 vm)
  unfolding Memory.stp
  stp-Contained size dst_addr src1 src2 vm = Ends-bind (get_memory-Ends _ _ _ vm) (λ mem _.
      Ends-bind (write_into-Ends size (register vm src1) (take (byte_size size) mem)) (λ _ _.
        Ends-bind (write_into-Ends size (register vm src2) (drop (byte_size size) mem))
          (λ _ _. ends_ok refl)))

  pub pops-Contained :
      (size : Size) (dst : Option ℕ) (vm : Vm) → Contained vm (Memory.pops size dst vm)
  unfolding Memory.pops
  pops-Contained size dst vm =
      Ends-bind (get_memory-Ends _ _ _ vm) (λ mem _. ends_ok (system-set_destination vm dst size _))

  pub popp-Contained :
      (size : Size) (dst1 dst2 : Option ℕ) (vm : Vm) → Contained vm (Memory.popp size dst1 dst2 vm)
  unfolding Memory.popp
  popp-Contained size dst1 dst2 vm = Ends-bind (get_memory-Ends _ _ _ vm) (λ mem _.
      ends_ok (system-set_destination _ dst2 size _ ∙ system-set_destination vm dst1 size _))

  pub lds-Contained :
      (size : Size) (dst src_addr : ℕ) (vm : Vm) → Contained vm (Memory.lds size dst src_addr vm)
  unfolding Memory.lds
  lds-Contained size dst src_addr vm =
      Ends-bind (get_memory-Ends _ _ _ vm)
        (λ mem _. ends_ok (system-set_sized_register vm dst size _))

  pub ldp-Contained :
      (size : Size) (dst1 dst2 src_addr : ℕ) (vm : Vm)
      → Contained vm (Memory.ldp size dst1 dst2 src_addr vm)
  unfolding Memory.ldp
  ldp-Contained size dst1 dst2 src_addr vm = Ends-bind (get_memory-Ends _ _ _ vm) (λ mem _.
      ends_ok (system-set_sized_register _ dst2 size _ ∙ system-set_sized_register vm dst1 size _))

  pub ldi-Contained :
      (dst src shift clear : ℕ) (vm : Vm) → Contained vm (Memory.ldi dst src shift clear vm)
  unfolding Memory.ldi
  ldi-Contained dst src shift clear vm = ends_ok refl

  pub ldr-Contained : (dst src : ℕ) (vm : Vm) → Contained vm (Memory.ldr dst src vm)
  unfolding Memory.ldr
  ldr-Contained dst src vm = ends_ok refl

  pub copy-Contained :
      (size : Size) (dst src : ℕ) (vm : Vm) → Contained vm (Memory.copy size dst src vm)
  unfolding Memory.copy
  copy-Contained size dst src vm = ends_ok (system-set_sized_register vm dst size _)
