-- ===== src/Emu/Main.antt =====
-- `main` of acca-emu/src/main.rs, and `load_file` of acca-emu/src/vm.rs.
use acca.Prelude.{ℕ, ◌*◌, Bool, Option, none, some, List, length}
use acca.Word.{wrapping_add}
use acca.Emu.Platform.{Platform}
use acca.Emu.State.{Vm, new, set_print_instructions}
use acca.Emu.Memory.{get_slice, set_slice}
use acca.Emu.Execute.{run}
pub mod Load

-- An opened `fs::File`: the length in its metadata, and `read_exact` on as many bytes; `none` is
-- an error of the system.
pub record File : Type 0 where
  pub metadata : Option ℕ
  pub read_exact : ℕ → Option (List ℕ)

-- The command line; `none` is an image that cannot be opened.
pub record Args : Type 0 where
  pub image : Option File
  pub print_instructions : Bool

-- `Result<(), io::Error>` and the `VM` that is left, or a panic.
pub data Loaded : Type 0 where
  loaded : Vm → Loaded
  failed panicked : Loaded

abbrev filled : ℕ → Vm → Option (List ℕ) → Loaded
filled dest_addr vm none = failed
filled dest_addr vm (some bytes) =
    loaded (record vm { memory = set_slice vm.memory dest_addr bytes })

abbrev loaded_at : File → ℕ → Vm → Option (List ℕ) → Loaded
loaded_at file dest_addr vm none = panicked
loaded_at file dest_addr vm (some dest) = filled dest_addr vm (file.read_exact (length dest))

unfoldable pub load_file : File → ℕ → Vm → Loaded
load_file file dest_addr vm = elim (file.metadata) [
  | none ↦ failed
  | some file_len ↦
      loaded_at file dest_addr vm (get_slice vm.memory dest_addr (wrapping_add dest_addr file_len))
]

-- How the process goes: it runs with this machine, or it has ended in `exit(1)` or in a panic.
pub data Process : Type 0 where
  running : Vm → Process
  exited crashed : Process

unfoldable pub vm_memory_size : ℕ
vm_memory_size = 32 * 1024 * 1024

abbrev pub started : Bool → Loaded → Process
started print failed = exited
started print panicked = crashed
started print (loaded vm) = running (set_print_instructions vm print)

abbrev pub with_vm : Args → Option Vm → Process
with_vm cli none = exited
with_vm cli (some vm) = elim (cli.image) [
  | none ↦ exited
  | some file ↦ started cli.print_instructions (load_file file 0 vm)
]

-- `main` up to the call of `run`.
unfoldable pub start : ⦃platform : Platform⦄ → Args → Process
start cli = with_vm cli (new vm_memory_size)

abbrev pub ran : Option Vm → Process
ran none = crashed
ran (some vm) = running vm

abbrev pub continued : ⦃platform : Platform⦄ → ℕ → Process → Process
continued n (running vm) = ran (run n vm)
continued n exited = exited
continued n crashed = crashed

-- `main`, with `n` rounds of the loop of `run`.
unfoldable pub main : ⦃platform : Platform⦄ → ℕ → Args → Process
main n cli = continued n (start cli)
