-- ===== src/Emu/Main/Load.antt =====
-- What `main` of acca-emu/src/main.rs does with an image before it runs it.
use acca.Prelude.{
  ℕ, zero, suc, ◌+◌, ◌-◌, ◌≤◌, ◌<◌, ◌^◌, Bool, none, some, List, ◌++◌, length, take, drop,
  replicate, length-replicate, le→leb, length-take, ◌≡◌, refl, ap, ◌∙◌, arith,
}
use acca.Word.{wrapping_add}
use acca.Emu.Platform.{Platform, IsDocumented}
use acca.Emu.State.{Vm, booted, new, set_print_instructions}
use acca.Emu.Memory.{get_slice, set_slice}
use acca.Emu.Main.{
  File, running, crashed, vm_memory_size, load_file, start, with_vm, started, loaded, panicked,
}

-- A file that can be read and has these contents.
pub record Stores (file : File) (contents : List ℕ) : Type 0 where
  pub metadata : file.metadata ≡ some (length contents)
  pub read_exact : file.read_exact (length contents) ≡ some contents

drop-replicate :
    {A : Type 0} (k n m : ℕ) (a : A) → m ≡ k + n → drop k (replicate m a) ≡ replicate n a
drop-replicate zero n m a h = ap (λ (i : ℕ). replicate i a) {x = m} {y = n} (omega (arith, h))
drop-replicate (suc k) n zero a h = absurd (omega (arith, h))
drop-replicate (suc k) n (suc m) a h = drop-replicate k n m a (omega (arith, h))

-- The first bytes of a memory, when it is as long as this many bytes.
get_slice-all :
    (memory : List ℕ) (n : ℕ) → n ≤ length memory → get_slice memory 0 n ≡ some (take n memory)
unfolding get_slice
get_slice-all memory n h =
    rw (le→leb 0 n (omega arith), le→leb n (length memory) h)
      (ap (λ (i : ℕ). some (take i memory)) {x = n - 0} {y = n} (omega arith))

pub vm_memory_size-lt : vm_memory_size < 2 ^ 64
unfolding vm_memory_size
vm_memory_size-lt = omega arith

-- A memory of zeros with the contents of a file at its start.
abbrev pub image_memory : List ℕ → List ℕ
image_memory contents = contents ++ replicate (vm_memory_size - length contents) 0

set_slice-zeros :
    (contents : List ℕ)
    → length contents ≤ vm_memory_size
    → set_slice (replicate vm_memory_size 0) 0 contents ≡ image_memory contents
unfolding set_slice
set_slice-zeros contents h =
    ap (λ l. contents ++ l)
      (drop-replicate (0 + length contents) (vm_memory_size - length contents) vm_memory_size 0
        (omega (arith, h)))

get_slice-zeros :
    (n : ℕ)
    → n ≤ vm_memory_size
    → (dest : List ℕ) × (get_slice (replicate vm_memory_size 0) 0 (wrapping_add 0 n) ≡ some dest)
      × (length dest ≡ n)
get_slice-zeros n h =
    let zeros : List ℕ = replicate vm_memory_size 0 in
    let measured = length-replicate {A = ℕ} vm_memory_size 0 in
    let end : wrapping_add 0 n ≡ n = omega (arith, h, vm_memory_size-lt) in
    (
      take n zeros,
      ap (λ (i : ℕ). get_slice zeros 0 i) end ∙ get_slice-all zeros n (omega (arith, h, measured)),
      omega (arith, length-take n zeros, measured, h),
    )

abbrev zeroed : Vm
zeroed = booted (replicate vm_memory_size 0)

loaded-Stores :
    (contents : List ℕ) (file : File)
    → Stores file contents
    → length contents ≤ vm_memory_size
    → load_file file 0 zeroed ≡ loaded (booted (image_memory contents))
unfolding load_file
loaded-Stores contents file stores fits =
    let (dest, found, measured) = get_slice-zeros (length contents) fits in
    rw (stores.metadata, found, measured, stores.read_exact)
      (ap (λ (l : List ℕ). loaded (booted l)) (set_slice-zeros contents fits))

get_slice-none : (memory : List ℕ) (n : ℕ) → length memory < n → get_slice memory 0 n ≡ none
unfolding get_slice
get_slice-none memory n h = ground arith

loaded-panicked :
    (file : File) (file_len : ℕ)
    → file.metadata ≡ some file_len
    → vm_memory_size < file_len
    → file_len < 2 ^ 64
    → load_file file 0 zeroed ≡ panicked
unfolding load_file
loaded-panicked file file_len len long small =
    let end : wrapping_add 0 file_len ≡ file_len = omega (arith, small) in
    let measured = length-replicate {A = ℕ} vm_memory_size 0 in
    rw
      (
        len,
        end,
        get_slice-none (replicate vm_memory_size 0) file_len (omega (arith, long, measured)),
      )
      refl

module _ ⦃platform : Platform⦄ where
  new-zeroed :
      (memory : List ℕ)
      → IsDocumented platform
      → platform.map_anon vm_memory_size ≡ some memory
      → new vm_memory_size ≡ some zeroed
  unfolding new
  new-zeroed memory documented mapped =
      rw (mapped, new)
        (ap (λ (l : List ℕ). some (booted l)) (documented.map_anon_zeroed vm_memory_size mapped))

  -- On a platform as documented, where the memory can be mapped, an image that can be read and is
  -- at most as long as the memory is put at the start of the memory; the rest of it is zero, the
  -- instruction pointer is 0x0400, and all else is as `VM::new` sets it, save `print_instructions`,
  -- which the command line gives.
  pub start-Stores :
      (memory contents : List ℕ) (file : File) (print : Bool)
      → IsDocumented platform
      → platform.map_anon vm_memory_size ≡ some memory
      → Stores file contents
      → length contents ≤ vm_memory_size
      → start (record { image = some file; print_instructions = print })
        ≡ running (set_print_instructions (booted (image_memory contents)) print)
  unfolding start
  start-Stores memory contents file print documented mapped stores fits =
      ap (with_vm (record { image = some file; print_instructions = print }))
        (new-zeroed memory documented mapped)
      ∙ ap (started print) (loaded-Stores contents file stores fits)

  -- On a platform as documented, where the memory can be mapped, an image that is longer than the
  -- memory, and shorter than 2^64 bytes, makes the emulator panic before it runs.
  pub start-crashed :
      (memory : List ℕ) (file : File) (file_len : ℕ) (print : Bool)
      → IsDocumented platform
      → platform.map_anon vm_memory_size ≡ some memory
      → file.metadata ≡ some file_len
      → vm_memory_size < file_len
      → file_len < 2 ^ 64
      → start (record { image = some file; print_instructions = print }) ≡ crashed
  unfolding start
  start-crashed memory file file_len print documented mapped len long small =
      ap (with_vm (record { image = some file; print_instructions = print }))
        (new-zeroed memory documented mapped)
      ∙ ap (started print) (loaded-panicked file file_len len long small)
