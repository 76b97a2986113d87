-- ===== src/Emu/Tests/Concrete.antt =====
-- A platform that does what is documented, and a state of a program in PL1.
use mathlib.Core.Option.{some-injective}
use acca.Prelude.{
  ℕ, ◌≡◌, refl, sym, arith, true, false, not, Option, none, some, List, [], ◌∷◌, replicate, bit_and,
  ltb, ◌==◌, if◌then◌else◌,
}
use acca.Word.{to_le_bytes, from_le_bytes}
use acca.Emu.Platform.{Platform, IsDocumented}
use acca.Emu.Util.Bit.{bit_as_bool}
use acca.Emu.Util.MachineRegister.{
  MachineRegisterId, flags, elr, esp, eflags, einfo, eaddr, evtable, ectable, vm_console,
  discriminant,
}
use acca.Emu.State.{Vm, default_table}

abbrev pub id_from : ℕ → Option MachineRegisterId
id_from n =
    if n == 0
    then some flags
    else if n == 1
    then some elr
    else if n == 2
    then some esp
    else if n == 3
    then some eflags
    else if n == 4
    then some einfo
    else if n == 5
    then some eaddr
    else if n == 6
    then some evtable
    else if n == 7
    then some ectable
    else if n == 0xdead1
    then some vm_console
    else none

instance abbrev pub concrete : Platform
concrete = record {
  overflow_checks = true;
  read_u16 = from_le_bytes;
  read_u32 = from_le_bytes;
  read_u64 = from_le_bytes;
  write_u16 = to_le_bytes 2;
  write_u32 = to_le_bytes 4;
  write_u64 = to_le_bytes 8;
  map_anon = λ size. some (replicate size 0);
  from_bits = λ bits. if ltb bits 2 then some bits else none;
  contains = λ bits flag. not (bit_and bits flag == 0);
  try_from = id_from;
}

id_from-discriminant : (id : MachineRegisterId) → id_from (discriminant id) ≡ some id
id_from-discriminant flags = refl
id_from-discriminant elr = refl
id_from-discriminant esp = refl
id_from-discriminant eflags = refl
id_from-discriminant einfo = refl
id_from-discriminant eaddr = refl
id_from-discriminant evtable = refl
id_from-discriminant ectable = refl
id_from-discriminant vm_console = refl

id_from-some : (n : ℕ) (id : MachineRegisterId) → id_from n ≡ some id → discriminant id ≡ n
id_from-some n flags h = ground arith
id_from-some n elr h = ground arith
id_from-some n esp h = ground arith
id_from-some n eflags h = ground arith
id_from-some n einfo h = ground arith
id_from-some n eaddr h = ground arith
id_from-some n evtable h = ground arith
id_from-some n ectable h = ground arith
id_from-some n vm_console h = ground arith

pub concrete-IsDocumented : IsDocumented concrete
unfolding bit_as_bool
concrete-IsDocumented = record {
  read_u16_le = λ bytes h. refl;
  read_u32_le = λ bytes h. refl;
  read_u64_le = λ bytes h. refl;
  write_u16_le = λ n. refl;
  write_u32_le = λ n. refl;
  write_u64_le = λ n. refl;
  map_anon_zeroed = λ size h. sym (some-injective _ _ h);
  from_bits_known = λ bits. refl;
  contains_use_stack = λ bits. refl;
  try_from_discriminant = id_from-discriminant;
  try_from_some = id_from-some;
}

-- A program in PL1, about to run the first instruction of its memory, with its stack above.
abbrev pub user_vm : List ℕ → Vm
user_vm memory = record {
  print_instructions = false;
  memory = memory;
  register_file = 7 ∷ 0x1234 ∷ 2 ∷ 3 ∷ 4 ∷ 5 ∷ 6 ∷ 7 ∷ 8 ∷ 9 ∷ 10 ∷ 11 ∷ 12 ∷ 12 ∷ 14 ∷ 15 ∷ [];
  flags = 0b110011;
  instruction_pointer = 0;
  elr = 0;
  esp = 0;
  eflags = 0;
  einfo = 0;
  eaddr = 0;
  evtable_addr = 0x1000;
  ectable_addr = 0;
  ectable = default_table;
  console = [];
}
