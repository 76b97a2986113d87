-- ===== src/Emu/Memory.antt =====
-- The memory of the `VM`, and the instructions that move data: `pushs` to `copy`.
pub mod Access
pub mod Bytes
pub mod Stack
use acca.Prelude.{
  ℕ, ◌+◌, ◌-◌, ◌*◌, bit_and, bit_or, Bool, true, false, ◌&&◌, Option, none, some, List, ◌++◌,
  length, take, drop, leb, ◌==◌, if◌then◌else◌,
}
use acca.Word.{all_bits, bit_not, shl, checked_shl, unwrap_or, wrapping_add, wrapping_sub}
use acca.Emu.Platform.{Platform}
use acca.Emu.Util.Size.{Size, byte_size, read, write}
use acca.Emu.Util.Register.{sp, get_unsigned, set_sized}
use acca.Emu.State.{Vm, register, set_register, Flow, ok, panic, ◌>>=◌}
use acca.Emu.Exception.{data_load_error, raise}

-- `slice.get(start..end)`
unfoldable pub get_slice : List ℕ → ℕ → ℕ → Option (List ℕ)
get_slice memory start end =
    if leb start end && leb end (length memory)
    then some (take (end - start) (drop start memory))
    else none

-- Assignment to the elements of a slice that begins at `start`.
unfoldable pub set_slice : List ℕ → ℕ → List ℕ → List ℕ
set_slice memory start bytes = take start memory ++ (bytes ++ drop (start + length bytes) memory)

-- A nullable operand reads as 0, and a write to it is dropped.
unfoldable pub source_value : Vm → Option ℕ → Size → ℕ
source_value vm none size = 0
source_value vm (some id) size = get_unsigned (register vm id) size

unfoldable pub set_sized_register : Vm → ℕ → Size → ℕ → Vm
set_sized_register vm id size value = set_register vm id (set_sized (register vm id) size value)

unfoldable pub set_destination : Vm → Option ℕ → Size → ℕ → Vm
set_destination vm none size value = vm
set_destination vm (some id) size value = set_sized_register vm id size value

module _ ⦃platform : Platform⦄ where
  -- The macros `get_memory!` and `get_memory_mut!`: the bytes of `addr..addr + size`, or an early
  -- return with a data load error. No size is above 384, so that `as u16` keeps it.
  unfoldable pub get_memory : Bool → ℕ → ℕ → Vm → Flow (List ℕ)
  get_memory write addr size vm = elim (get_slice vm.memory addr (wrapping_add addr size)) [
    | none ↦ raise (data_load_error addr write size) vm
    | some bytes ↦ ok bytes
  ]

  unfoldable pub pushs : Size → Option ℕ → Vm → Flow Vm
  pushs size src vm = do
    let val = source_value vm src size
    let new_rsp_val = wrapping_sub (register vm sp) (byte_size size)
    _ ← get_memory true new_rsp_val (byte_size size) vm
    let stored = record vm { memory = set_slice vm.memory new_rsp_val (write size val) }
    ok (set_register stored sp new_rsp_val)

  unfoldable pub pushp : Size → Option ℕ → Option ℕ → Vm → Flow Vm
  pushp size src1 src2 vm = do
    let val1 = source_value vm src1 size
    let val2 = source_value vm src2 size
    let new_rsp_val = wrapping_sub (register vm sp) (2 * byte_size size)
    _ ← get_memory true new_rsp_val (2 * byte_size size) vm
    let bytes = write size val1 ++ write size val2
    let stored = record vm { memory = set_slice vm.memory new_rsp_val bytes }
    ok (set_register stored sp new_rsp_val)

  unfoldable pub pops : Size → Option ℕ → Vm → Flow Vm
  pops size dst vm = do
    let old_rsp_val = register vm sp
    mem ← get_memory false old_rsp_val (byte_size size) vm
    let loaded = set_destination vm dst size (read size mem false)
    ok (set_register loaded sp (wrapping_add old_rsp_val (byte_size size)))

  unfoldable pub popp : Size → Option ℕ → Option ℕ → Vm → Flow Vm
  popp size dst1 dst2 vm = do
    let old_rsp_val = register vm sp
    mem ← get_memory false old_rsp_val (2 * byte_size size) vm
    let val1 = read size (take (byte_size size) mem) false
    let val2 = read size (drop (byte_size size) mem) false
    let loaded = set_destination (set_destination vm dst1 size val1) dst2 size val2
    ok (set_register loaded sp (wrapping_add old_rsp_val (2 * byte_size size)))

  unfoldable pub lds : Size → ℕ → ℕ → Vm → Flow Vm
  lds size dst src_addr vm = do
    mem ← get_memory false (register vm src_addr) (byte_size size) vm
    ok (set_sized_register vm dst size (read size mem false))

  unfoldable pub ldp : Size → ℕ → ℕ → ℕ → Vm → Flow Vm
  ldp size dst1 dst2 src_addr vm = do
    mem ← get_memory false (register vm src_addr) (2 * byte_size size) vm
    let val1 = read size (take (byte_size size) mem) false
    let val2 = read size (drop (byte_size size) mem) false
    ok (set_sized_register (set_sized_register vm dst1 size val1) dst2 size val2)

  unfoldable pub sts : Size → ℕ → ℕ → Vm → Flow Vm
  sts size dst_addr src vm = do
    let addr = register vm dst_addr
    _ ← get_memory true addr (byte_size size) vm
    ok (record vm { memory = set_slice vm.memory addr (write size (register vm src)) })

  -- `Size::write` into a slice, which panics if that is shorter than the size.
  unfoldable pub write_into : Size → ℕ → List ℕ → Flow (List ℕ)
  write_into size src dst =
      if leb (byte_size size) (length dst)
      then ok (write size src ++ drop (byte_size size) dst)
      else panic

  -- Only one element is taken from the memory, and split after its last byte.
  unfoldable pub stp : Size → ℕ → ℕ → ℕ → Vm → Flow Vm
  stp size dst_addr src1 src2 vm = do
    let addr = register vm dst_addr
    mem ← get_memory true addr (byte_size size) vm
    bytes1 ← write_into size (register vm src1) (take (byte_size size) mem)
    bytes2 ← write_into size (register vm src2) (drop (byte_size size) mem)
    ok (record vm { memory = set_slice vm.memory addr (bytes1 ++ bytes2) })

-- The bits of the old value that `ldi` keeps, by its two-bit `clear` operand.
unfoldable pub kept_bits : ℕ → ℕ → ℕ
kept_bits clear shift =
    if clear == 0
    then all_bits
    else if clear == 1
    then unwrap_or (checked_shl all_bits shift) 0
    else if clear == 2
    then bit_not (unwrap_or (checked_shl all_bits (shift + 16)) 0)
    else 0

unfoldable pub ldi : ℕ → ℕ → ℕ → ℕ → Vm → Flow Vm
unfolding kept_bits
ldi dst src shift clear vm =
    let mask = shl 0xffff shift in
    let shifted = shl src shift in
    let masked = bit_and (register vm dst) (bit_not mask) in
    let cleared = bit_and masked (kept_bits clear shift) in
    ok (set_register vm dst (bit_or cleared shifted))

unfoldable pub ldr : ℕ → ℕ → Vm → Flow Vm
ldr dst src vm =
    let rel_base = wrapping_add vm.instruction_pointer 4 in
    ok (set_register vm dst (wrapping_add rel_base src))

unfoldable pub copy : Size → ℕ → ℕ → Vm → Flow Vm
copy size dst src vm = ok (set_sized_register vm dst size (get_unsigned (register vm src) size))
