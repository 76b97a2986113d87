-- ===== src/Emu/Memory/Access.antt =====
-- What a slice of the memory holds, and `stp`.
use acca.Prelude.{
  ℕ, ◌-◌, ◌*◌, ◌≤◌, ◌<◌, ◌≡◌, refl, ap, ◌∙◌, sym, arith, Bool, true, false, ◌&&◌, none, some, ◌⊎◌,
  inl, inr, List, ◌++◌, length, take, drop, length-take, length-drop, Option-cases, leb,
  if◌then◌else◌,
}
use mathlib.Core.Option.{some-injective}
use acca.Word.{wrapping_add}
use acca.Emu.Platform.{Platform}
use acca.Emu.Util.Size.{Size, byte, double_byte, quad_byte, word, byte_size}
use acca.Emu.State.{Vm, register, ok, panic, ◌>>=◌}
use acca.Emu.Exception.{data_load_error, raise}
use acca.Emu.Memory.{get_slice, get_memory, write_into, set_slice, stp}

byte_size-pos : (size : Size) → 0 < byte_size size
byte_size-pos byte = omega arith
byte_size-pos double_byte = omega arith
byte_size-pos quad_byte = omega arith
byte_size-pos word = omega arith

guarded-some :
    {A : Type 0} (b : Bool) {x a : A} → (if b then some x else none) ≡ some a → (b ≡ true) × (x ≡ a)
guarded-some true h = (refl, some-injective _ _ h)
guarded-some false h = cc

&&-true : (a b : Bool) → (a && b) ≡ true → (a ≡ true) × (b ≡ true)
&&-true true true h = (refl, refl)
&&-true true false h = cc
&&-true false b h = cc

leb→le : (a b : ℕ) → leb a b ≡ true → a ≤ b
leb→le a b h = ground arith

-- A slice that is there lies within the memory and has the size asked for.
pub get_slice-length :
    (memory : List ℕ) (start end : ℕ) (bytes : List ℕ)
    → get_slice memory start end ≡ some bytes
    → (start ≤ end) × (end ≤ length memory) × (length bytes ≡ end - start)
unfolding get_slice
get_slice-length memory start end bytes h =
    let (inside, taken) = guarded-some (leb start end && leb end (length memory)) h in
    let (ordered, below) = &&-true (leb start end) (leb end (length memory)) inside in
    (
      leb→le start end ordered,
      leb→le end (length memory) below,
      ap length (sym taken)
          ∙ omega (
            arith,
            length-take (end - start) (drop start memory),
            length-drop start memory,
            leb→le start end ordered,
            leb→le end (length memory) below,
          ),
    )

module _ ⦃platform : Platform⦄ where
  pub get_memory-cases :
      (write : Bool) (addr size : ℕ) (vm : Vm)
      → (get_memory write addr size vm ≡ raise (data_load_error addr write size) vm)
        ⊎ ((bytes : List ℕ) × (get_memory write addr size vm ≡ ok bytes)
            × (get_slice vm.memory addr (wrapping_add addr size) ≡ some bytes))
  unfolding get_memory
  get_memory-cases write addr size vm =
      elim (Option-cases (get_slice vm.memory addr (wrapping_add addr size))) [
        | inl missing ↦ inl (rw (missing, get_memory) refl)
        | inr (bytes, found) ↦ inr (bytes, rw (found, get_memory) refl, found)
      ]

  write_into-cases :
      (size : Size) (src : ℕ) (dst : List ℕ)
      → (write_into size src dst ≡ panic)
        ⊎ ((bytes : List ℕ) × (write_into size src dst ≡ ok bytes))
  unfolding write_into
  write_into-cases size src dst = if-cases (leb (byte_size size) (length dst)) _
    where
      if-cases :
          {A : Type 0} (b : Bool) (x : A)
          → ((if b then ok x else panic) ≡ panic) ⊎ ((a : A) × ((if b then ok x else panic) ≡ ok a))
      if-cases true x = inr (_, refl)
      if-cases false x = inl refl

  write_into-short :
      (size : Size) (src : ℕ) (dst : List ℕ)
      → length dst < byte_size size
      → write_into size src dst ≡ panic
  unfolding write_into
  write_into-short size src dst h = ground (arith, h)

  -- `stp` never stores: it ends in a data load error, or in a panic of the process.
  pub stp-fails :
      (size : Size) (dst_addr src1 src2 : ℕ) (vm : Vm)
      → (stp size dst_addr src1 src2 vm ≡ panic)
        ⊎ (stp size dst_addr src1 src2 vm
            ≡ raise (data_load_error (register vm dst_addr) true (byte_size size)) vm)
  unfolding stp
  stp-fails size dst_addr src1 src2 vm =
      elim (get_memory-cases true (register vm dst_addr) (byte_size size) vm) [
        | inl missing ↦ inr (rw (stp, missing) refl)
        | inr (bytes, got, found) ↦ inl (
            rw (stp, got)
              (after bytes (omega (arith, byte_size-pos size, get_slice-length _ _ _ bytes found))))
      ]
    where
      after :
          (mem : List ℕ)
          → length mem < 2 * byte_size size
          → (write_into size (register vm src1) (take (byte_size size) mem) >>= λ bytes1.
              write_into size (register vm src2) (drop (byte_size size) mem) >>= λ bytes2.
              ok (record vm {
                memory = set_slice vm.memory (register vm dst_addr) (bytes1 ++ bytes2);
              }))
            ≡ panic
      after mem h = elim (write_into-cases size (register vm src1) (take (byte_size size) mem)) [
        | inl e ↦ rw e refl
        | inr (bytes1, e) ↦
            rw
              (
                e,
                write_into-short size (register vm src2) (drop (byte_size size) mem)
                    (omega (arith, length-drop (byte_size size) mem)),
              )
              refl
      ]
