-- ===== src/Emu/Platform.antt =====
-- What acca-emu takes from outside its sources: the crates byteorder (`LittleEndian`), memmap2
-- (`MmapMut::map_anon`), bitflags (`from_bits`, `contains`) and num_enum (`try_from` of
-- `MachineRegisterID`), and the build profile's `overflow-checks`. `IsDocumented` says what their
-- documentation promises.
use acca.Prelude.{ℕ, ◌≡◌, Bool, Option, none, some, List, length, replicate, ltb, if◌then◌else◌}
use acca.Word.{to_le_bytes, from_le_bytes}
use acca.Emu.Util.Bit.{bit_as_bool}
use acca.Emu.Util.MachineRegister.{MachineRegisterId, discriminant}

pub record Platform : Type 0 where
  pub overflow_checks : Bool
  pub read_u16 : List ℕ → ℕ
  pub read_u32 : List ℕ → ℕ
  pub read_u64 : List ℕ → ℕ
  pub write_u16 : ℕ → List ℕ
  pub write_u32 : ℕ → List ℕ
  pub write_u64 : ℕ → List ℕ
  pub map_anon : ℕ → Option (List ℕ)
  pub from_bits : ℕ → Option ℕ
  pub contains : ℕ → ℕ → Bool
  pub try_from : ℕ → Option MachineRegisterId

pub record IsDocumented (platform : Platform) : Type 0 where
  pub read_u16_le :
      (bytes : List ℕ) → length bytes ≡ 2 → platform.read_u16 bytes ≡ from_le_bytes bytes
  pub read_u32_le :
      (bytes : List ℕ) → length bytes ≡ 4 → platform.read_u32 bytes ≡ from_le_bytes bytes
  pub read_u64_le :
      (bytes : List ℕ) → length bytes ≡ 8 → platform.read_u64 bytes ≡ from_le_bytes bytes
  pub write_u16_le : (n : ℕ) → platform.write_u16 n ≡ to_le_bytes 2 n
  pub write_u32_le : (n : ℕ) → platform.write_u32 n ≡ to_le_bytes 4 n
  pub write_u64_le : (n : ℕ) → platform.write_u64 n ≡ to_le_bytes 8 n
  -- A fresh mapping has the size asked for, and holds zeros.
  pub map_anon_zeroed :
      (size : ℕ) {memory : List ℕ}
      → platform.map_anon size ≡ some memory
      → memory ≡ replicate size 0
  -- `USE_STACK`, bit 0, is the only flag that is declared.
  pub from_bits_known :
      (bits : ℕ) → platform.from_bits bits ≡ (if ltb bits 2 then some bits else none)
  pub contains_use_stack : (bits : ℕ) → platform.contains bits 1 ≡ bit_as_bool bits 0
  pub try_from_discriminant :
      (id : MachineRegisterId) → platform.try_from (discriminant id) ≡ some id
  pub try_from_some :
      (n : ℕ) (id : MachineRegisterId) → platform.try_from n ≡ some id → discriminant id ≡ n
