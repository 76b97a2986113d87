-- ===== src/Emu/Memory/Bytes.antt =====
-- What `Size::write` writes and `Size::read` reads, and slices that were assigned to.
use native.Mathlib.Nat.{div-add-mod', pow-succ'}
use acca.Prelude.{
  ℕ, zero, suc, leb, ◌+◌, ◌-◌, ◌*◌, ◌/◌, ◌%◌, ◌^◌, ◌≤◌, ◌<◌, ◌≡◌, refl, ap, ◌∙◌, arith, true, false,
  some, List, ◌++◌, length, take, drop, length-take, length-drop, length-append, take-append,
  drop-append,
}
use acca.Word.{IsWord, to_le_bytes, from_le_bytes}
use acca.Emu.Platform.{Platform, IsDocumented}
use acca.Emu.Util.Size.{Size, byte, double_byte, quad_byte, word, byte_size, bit_size, read, write}
use acca.Emu.Memory.{get_slice, set_slice}

pow-suc : (n : ℕ) → 256 ^ suc n ≡ 256 * 256 ^ n
pow-suc n = pow-succ' 256 n

pub from_le_bytes-to_le_bytes : (n x : ℕ) → x < 256 ^ n → from_le_bytes (to_le_bytes n x) ≡ x
from_le_bytes-to_le_bytes zero x h = omega arith
from_le_bytes-to_le_bytes (suc n) x h =
    omega (
      arith,
      from_le_bytes-to_le_bytes n (x / 256) (omega (arith, h, pow-suc n)),
      div-add-mod' x 256,
    )

le→leb : (a b : ℕ) → a ≤ b → leb a b ≡ true
le→leb a b h = ground arith

length-set_slice :
    (memory : List ℕ) (start end : ℕ) (bytes : List ℕ)
    → start ≤ end
    → end ≤ length memory
    → length bytes ≡ end - start
    → length (set_slice memory start bytes) ≡ length memory
unfolding set_slice
length-set_slice memory start end bytes h h' h'' = omega (
  arith,
  length-append (take start memory) (bytes ++ drop (start + length bytes) memory),
  length-append bytes (drop (start + length bytes) memory),
  length-take start memory,
  length-drop (start + length bytes) memory,
)

-- A slice within the memory that has been assigned bytes of its length holds those bytes.
pub get_slice-set_slice :
    (memory : List ℕ) (start end : ℕ) (bytes : List ℕ)
    → start ≤ end
    → end ≤ length memory
    → length bytes ≡ end - start
    → get_slice (set_slice memory start bytes) start end ≡ some bytes
unfolding get_slice set_slice
get_slice-set_slice memory start end bytes h h' h'' =
    rw
      (
        length-set_slice memory start end bytes h h' h'',
        le→leb start end h,
        le→leb end (length memory) h',
        drop-append (take start memory) (bytes ++ drop (start + length bytes) memory) start
            (omega (arith, length-take start memory)),
        take-append bytes (drop (start + length bytes) memory) (end - start) h'',
      )
      refl

module _ ⦃platform : Platform⦄ (documented : IsDocumented platform) where
  pub length-write : (size : Size) (val : ℕ) → length (write size val) ≡ byte_size size
  unfolding write
  length-write byte val = refl
  length-write double_byte val = ap length (documented.write_u16_le _)
  length-write quad_byte val = ap length (documented.write_u32_le _)
  length-write word val = ap length (documented.write_u64_le _)

  -- Reading back what `write` has written of a word gives the word cut to the size, if the
  -- platform does what is documented.
  pub read-write :
      (size : Size) (val : ℕ)
      → IsWord val
      → read size (write size val) false ≡ val % 2 ^ bit_size size
  unfolding read write
  read-write byte val h = omega arith
  read-write double_byte val h =
      documented.read_u16_le _ (length-write double_byte val)
      ∙ ap from_le_bytes (documented.write_u16_le _)
      ∙ from_le_bytes-to_le_bytes 2 _ (omega arith)
  read-write quad_byte val h =
      documented.read_u32_le _ (length-write quad_byte val)
      ∙ ap from_le_bytes (documented.write_u32_le _)
      ∙ from_le_bytes-to_le_bytes 4 _ (omega arith)
  read-write word val h =
      documented.read_u64_le _ (length-write word val)
      ∙ ap from_le_bytes (documented.write_u64_le _)
      ∙ from_le_bytes-to_le_bytes 8 _ (omega (arith, h))
      ∙ omega (arith, h)
