-- ===== src/Emu/Isolation/System.antt =====
-- The system part of the `VM`, which a program in PL1 cannot reach, and the ways in which a piece
-- of `execute_one` can end.
use acca.Prelude.{ℕ, ◌<◌, ◌≡◌, ◌∙◌, arith, Bool, true, false, if◌then◌else◌}
use acca.Word.{wrapping_add}
use acca.Emu.Platform.{Platform}
use acca.Emu.Util.Bit.{bit_as_bool, set_bit_with_bool}
use acca.Emu.Util.Bit.Laws.{bit_as_bool-set_bit_with_bool}
use acca.Emu.State.{Vm, ExceptionConfigurationTable, Flow, ok, returned, panic, ◌>>=◌}
use acca.Emu.Exception.{Exception, user, take_exception}

pub record System : Type 0 where
  pub elr : ℕ
  pub esp : ℕ
  pub eflags : ℕ
  pub einfo : ℕ
  pub eaddr : ℕ
  pub evtable_addr : ℕ
  pub ectable_addr : ℕ
  pub ectable : ExceptionConfigurationTable
  pub enabled : Bool
  pub in_pl1 : Bool

abbrev pub system : Vm → System
system vm = record {
  elr = vm.elr;
  esp = vm.esp;
  eflags = vm.eflags;
  einfo = vm.einfo;
  eaddr = vm.eaddr;
  evtable_addr = vm.evtable_addr;
  ectable_addr = vm.ectable_addr;
  ectable = vm.ectable;
  enabled = bit_as_bool vm.flags 4;
  in_pl1 = bit_as_bool vm.flags 5;
}

-- The new flags have the mode bits of the old.
abbrev pub KeepsMode : ℕ → ℕ → Type 0
KeepsMode old new =
    (bit_as_bool new 4 ≡ bit_as_bool old 4) × (bit_as_bool new 5 ≡ bit_as_bool old 5)

pub set_bit_with_bool-KeepsMode :
    (flags i : ℕ) (value : Bool) → i < 4 → KeepsMode flags (set_bit_with_bool flags i value)
set_bit_with_bool-KeepsMode flags i value h = (
  ground (arith, bit_as_bool-set_bit_with_bool flags i 4 value (omega arith) (omega arith)),
  ground (arith, bit_as_bool-set_bit_with_bool flags i 5 value (omega arith) (omega arith)),
)

pub KeepsMode-trans : (a b c : ℕ) → KeepsMode a b → KeepsMode b c → KeepsMode a c
KeepsMode-trans a b c h k = (k.0 ∙ h.0, k.1 ∙ h.1)

pub system-flags :
    (vm : Vm) (flags : ℕ)
    → KeepsMode vm.flags flags
    → system (record vm { flags = flags }) ≡ system vm
system-flags vm flags h = λ i. record (system vm) { enabled = h.0 i; in_pl1 = h.1 i }

-- `P` holds of a value that is handed on, and `Q` of a `VM` left by an early return.
pub data Ends {A : Type 0} (P : A → Type 0) (Q : Vm → Type 0) : Flow A → Type 0 where
  ends_ok : {a : A} → P a → Ends P Q (ok a)
  ends_returned : {vm : Vm} → Q vm → Ends P Q (returned vm)
  ends_panic : Ends P Q panic

pub Ends-bind :
    {A B : Type 0} {P : A → Type 0} {P' : B → Type 0} {Q : Vm → Type 0} {m : Flow A}
    {f : A → Flow B}
    → Ends P Q m
    → ((a : A) → P a → Ends P' Q (f a))
    → Ends P' Q (m >>= f)
Ends-bind (ends_ok p) k = k _ p
Ends-bind (ends_returned q) k = ends_returned q
Ends-bind ends_panic k = ends_panic

pub Ends-if :
    {A : Type 0} {P : A → Type 0} {Q : Vm → Type 0} (b : Bool) {x y : Flow A}
    → Ends P Q x
    → Ends P Q y
    → Ends P Q (if b then x else y)
Ends-if true x y = x
Ends-if false x y = y

abbrev pub advanced : Vm → Vm
advanced vm = record vm { instruction_pointer = wrapping_add vm.instruction_pointer 4 }

module _ ⦃platform : Platform⦄ where
  -- The exception is taken from the state before the instruction, but for `exc`, which first
  -- steps over itself.
  pub data Precise (vm : Vm) : Vm → Type 0 where
    faulting : (exception : Exception) → Precise vm (take_exception exception vm)
    requested : (value : ℕ) → Precise vm (take_exception (user value) (advanced vm))

  -- How an instruction that cannot reach the system part ends.
  abbrev pub Contained : Vm → Flow Vm → Type 0
  Contained vm = Ends (λ vm'. system vm' ≡ system vm) (Precise vm)
