-- ===== src/Emu/Memory/Stack.antt =====
-- `pushs` and `pops`.
use mathlib.Core.Path.{subst}
use acca.Emu.Util.Register.Sized.{get_unsigned_lem, get_unsigned-set_sized}
use acca.Prelude.{
  ℕ, ◌%◌, ◌^◌, ◌≤◌, ◌<◌, ◌≡◌, refl, ap, ◌∙◌, sym, arith, Bool, true, false, Option, none, some,
  List, length, set, get_or, set-set, get_or-set_self, inl, inr, All, ◌≢◌, All-get_or,
  get_or-set_ne, length-set, All-set,
}
use acca.Word.{IsWord, wrapping_add, wrapping_sub}
use acca.Emu.Platform.{Platform, IsDocumented}
use acca.Emu.Util.Size.{Size, byte, double_byte, quad_byte, word, byte_size, bit_size, read, write}
use acca.Emu.Util.Register.{sp, get_unsigned, set_sized}
use acca.Emu.State.{Vm, register, set_register, Flow, ok, returned, panic, ◌>>=◌}
use acca.Emu.Memory.{
  get_slice, set_slice, source_value, set_destination, set_sized_register, get_memory, pushs, pops,
}
use acca.Emu.Memory.Bytes.{length-write, read-write, get_slice-set_slice}
use acca.Emu.Memory.Access.{get_slice-length, get_memory-cases}

bind-ext :
    {A B : Type 0} (m : Flow A) {f g : A → Flow B} → ((a : A) → f a ≡ g a) → (m >>= f) ≡ (m >>= g)
bind-ext (ok a) same = same a
bind-ext (returned vm) same = refl
bind-ext panic same = refl

-- A chain that goes on to the end has gone on at its first step.
bind-ok :
    {A B : Type 0} (first : Flow A) {next : A → Flow B} {result : B}
    → (first >>= next) ≡ ok result
    → (value : A) × (next value ≡ ok result) × (first ≡ ok value)
bind-ok (ok value) h = (value, h, refl)
bind-ok (returned vm) h = cc
bind-ok panic h = cc

ok-injective : {A : Type 0} {a b : A} → ok a ≡ ok b → a ≡ b
ok-injective {A = A} {a = a} h = ap unwrapped h
  where
    unwrapped : Flow A → A
    unwrapped (ok x) = x
    unwrapped (returned vm) = a
    unwrapped panic = a

module _ ⦃platform : Platform⦄ where
  -- `pops` into the stack pointer ends as `pops` without a destination does: the value that was
  -- loaded is overwritten by the incremented stack pointer.
  pub pops-sp : (size : Size) (vm : Vm) → pops size (some sp) vm ≡ pops size none vm
  unfolding pops set_destination set_sized_register
  pops-sp size vm = bind-ext (get_memory false (register vm sp) (byte_size size) vm) (λ mem.
      ap (λ file. ok (record vm { register_file = file }))
        (set-set vm.register_file sp _ (wrapping_add (register vm sp) (byte_size size))))

  module _ (documented : IsDocumented platform) where
    get_memory-ok :
        (write : Bool) (addr size : ℕ) (vm : Vm) (bytes : List ℕ)
        → get_memory write addr size vm ≡ ok bytes
        → get_slice vm.memory addr (wrapping_add addr size) ≡ some bytes
    get_memory-ok write addr size vm bytes h = elim (get_memory-cases write addr size vm) [
      | inl missing ↦ cc
      | inr (found, got, e) ↦ e ∙ ap some (ok-injective (sym got ∙ h))
    ]

    pushed_state : Size → ℕ → Vm → Vm
    pushed_state size val vm =
        let top = wrapping_sub (register vm sp) (byte_size size) in
        set_register (record vm { memory = set_slice vm.memory top (write size val) }) sp top

    pushs-ok :
        (size : Size) (src : Option ℕ) (vm vm₁ : Vm)
        → pushs size src vm ≡ ok vm₁
        → (pushed_state size (source_value vm src size) vm ≡ vm₁)
          × ((bytes : List ℕ) × (get_slice vm.memory
                  (wrapping_sub (register vm sp) (byte_size size))
                  (wrapping_add (wrapping_sub (register vm sp) (byte_size size)) (byte_size size))
                ≡ some bytes))
    unfolding pushs pushed_state
    pushs-ok size src vm vm₁ pushed =
        let (bytes, e, got) = bind-ok (get_memory true _ _ vm) pushed in
        (ok-injective e, (bytes, get_memory-ok true _ _ vm bytes got))

    popped_state : Size → ℕ → ℕ → Vm → Vm
    popped_state size dst val vm =
        set_register (set_destination vm (some dst) size val) sp
          (wrapping_add (register vm sp) (byte_size size))

    pops-found :
        (size : Size) (dst : ℕ) (vm : Vm) (bytes : List ℕ)
        → get_slice vm.memory (register vm sp) (wrapping_add (register vm sp) (byte_size size))
          ≡ some bytes
        → pops size (some dst) vm ≡ ok (popped_state size dst (read size bytes false) vm)
    unfolding pops get_memory popped_state
    pops-found size dst vm bytes found = rw (pops, get_memory, found) refl

    byte_size-le : (size : Size) → byte_size size ≤ 8
    byte_size-le byte = omega arith
    byte_size-le double_byte = omega arith
    byte_size-le quad_byte = omega arith
    byte_size-le word = omega arith

    zero_fits : (size : Size) → (0 % 2 ^ bit_size size ≡ 0) × IsWord 0
    zero_fits byte = (refl, omega arith)
    zero_fits double_byte = (refl, omega arith)
    zero_fits quad_byte = (refl, omega arith)
    zero_fits word = (refl, omega arith)

    cut :
        (size : Size) (x : ℕ)
        → (x % 2 ^ bit_size size % 2 ^ bit_size size ≡ x % 2 ^ bit_size size)
          × (x % 2 ^ bit_size size < 2 ^ 64)
    cut byte x = (omega arith, omega arith)
    cut double_byte x = (omega arith, omega arith)
    cut quad_byte x = (omega arith, omega arith)
    cut word x = (omega arith, omega arith)

    -- A value that is pushed fits its size.
    source_value-fits :
        (vm : Vm) (src : Option ℕ) (size : Size)
        → (source_value vm src size % 2 ^ bit_size size ≡ source_value vm src size)
          × IsWord (source_value vm src size)
    unfolding source_value
    source_value-fits vm none size = zero_fits size
    source_value-fits vm (some src) size = rw get_unsigned_lem (cut size (register vm src))

    -- The slice that `pops` reads after `pushs`.
    pushed-slice :
        (size : Size) (val : ℕ) (vm : Vm) (bytes : List ℕ)
        → sp < length vm.register_file
        → IsWord (register vm sp)
        → get_slice vm.memory
            (wrapping_sub (register vm sp) (byte_size size))
            (wrapping_add (wrapping_sub (register vm sp) (byte_size size)) (byte_size size))
          ≡ some bytes
        → let vm₁ = pushed_state size val vm in
          (register vm₁ sp ≡ wrapping_sub (register vm sp) (byte_size size))
          × (get_slice vm₁.memory
                (register vm₁ sp)
                (wrapping_add (register vm₁ sp) (byte_size size))
              ≡ some (write size val))
    unfolding pushed_state
    pushed-slice size val vm bytes has_sp in_range found =
        let (ordered, below, measured) = get_slice-length _ _ _ bytes found in
        (
          get_or-set_self vm.register_file sp _ 0 has_sp,
          rw
              (get_or-set_self vm.register_file sp (wrapping_sub (register vm sp) (byte_size size))
                0 has_sp)
              (get_slice-set_slice vm.memory _ _ (write size val) ordered below (
                omega
                  (arith, length-write documented size val, byte_size-le size, ordered, in_range))),
        )

    pushed-popped :
        (size : Size) (val dst : ℕ) (vm : Vm)
        → All IsWord vm.register_file
        → sp < length vm.register_file
        → dst < length vm.register_file
        → dst ≢ sp
        → let vm₂ =
            popped_state size dst (read size (write size val) false) (pushed_state size val vm) in
          (register vm₂ sp ≡ register vm sp)
          × (IsWord val → get_unsigned (register vm₂ dst) size ≡ val % 2 ^ bit_size size)
          × (vm₂.memory ≡ (pushed_state size val vm).memory)
    unfolding pushed_state popped_state set_destination set_sized_register
    pushed-popped size val dst vm words has_sp has_dst other =
        let top = wrapping_sub (register vm sp) (byte_size size) in
        let file = set vm.register_file sp top in
        let popped =
          set file dst (set_sized (get_or file dst 0) size (read size (write size val) false)) in
        let in_range = All-get_or IsWord vm.register_file sp 0 words (omega arith) in
        let words' = All-set IsWord vm.register_file sp top words (omega arith) in
        (
          get_or-set_self popped sp _ 0
                (omega (arith, has_sp, length-set vm.register_file sp top, length-set file dst _))
              ∙ ap (λ v. wrapping_add v (byte_size size))
                  (get_or-set_self vm.register_file sp top 0 has_sp)
              ∙ omega (arith, in_range, byte_size-le size),
          λ h.
              ap (λ v. get_unsigned v size)
                (get_or-set_ne popped sp dst _ 0 (λ e. other (sym e))
                  ∙ get_or-set_self file dst _ 0
                      (omega (arith, has_dst, length-set vm.register_file sp top)))
              ∙ (get_unsigned-set_sized (get_or file dst 0) _ size
                  (All-get_or IsWord file dst 0 words' (omega arith))).0
              ∙ ap (λ v. v % 2 ^ bit_size size) (read-write documented size val h)
              ∙ (cut size val).0,
          refl,
        )

    -- What a `pushs` that did not fault has pushed, `pops` pops: the `pops` does not fault, the
    -- stack pointer is back where it was, the destination holds the value of the source at the
    -- size of the push, and the memory is as the push left it. The destination is another register
    -- than the stack pointer, and the platform does what is documented.
    pub pops-pushs :
        (size : Size) (src : Option ℕ) (dst : ℕ) (vm vm₁ : Vm)
        → All IsWord vm.register_file
        → sp < length vm.register_file
        → dst < length vm.register_file
        → dst ≢ sp
        → pushs size src vm ≡ ok vm₁
        → (vm₂ : Vm) × (pops size (some dst) vm₁ ≡ ok vm₂)
          × (register vm₂ sp ≡ register vm sp)
          × (get_unsigned (register vm₂ dst) size ≡ source_value vm src size)
          × (vm₂.memory ≡ vm₁.memory)
    pops-pushs size src dst vm vm₁ words has_sp has_dst other pushed =
        let (same, (bytes, found)) = pushs-ok size src vm vm₁ pushed in
        let val = source_value vm src size in
        let result = pushed-popped size val dst vm words has_sp has_dst other in
        let (top, slice) =
          pushed-slice size val vm bytes has_sp
            (All-get_or IsWord vm.register_file sp 0 words (omega arith)) found in
        subst
          (λ v.
            (vm₂ : Vm) × (pops size (some dst) v ≡ ok vm₂)
            × (register vm₂ sp ≡ register vm sp)
            × (get_unsigned (register vm₂ dst) size ≡ source_value vm src size)
            × (vm₂.memory ≡ v.memory))
          same
          (
            popped_state size dst (read size (write size val) false) (pushed_state size val vm),
            pops-found size dst _ (write size val) slice,
            result.0,
            result.1 (source_value-fits vm src size).1 ∙ (source_value-fits vm src size).0,
            result.2,
          )
