-- ===== src/Vm/Run.antt =====
-- The exits of src/vm.c: `handle_exit_io` and the loop of `vm_run`. The shared page `vm->kvm_run` is its
-- bytes; the fields of the exit that the kernel leaves in it are given beside it.
use blackhv.Base.{
  ℕ, Bool, not, Option, none, some, List, [], ◌∷◌, ◌++◌, ◌==◌, if◌then◌else◌, get_elem?, set, ◌>>=◌,
  access, Exec, ok, out_of_fuel,
}
use blackhv.Atapi.{load_u16, store_u16}
use blackhv.Io.{Handlers, io_handle_outb, io_handle_outw, io_handle_inb, io_handle_inw}
use blackhv.Mmio.{MmioRegion, MmioCall, mmio_handle_write}

pub data Direction : Type 0 where
  exit_io_in : Direction
  exit_io_out : Direction

-- `vm->kvm_run->io`.
pub record IoExit : Type 0 where
  pub direction : Direction
  pub size : ℕ
  pub port : ℕ
  pub data_offset : ℕ

-- What KVM_RUN comes back with.
pub data KvmExit : Type 0 where
  run_failed : KvmExit
  exit_io : IoExit → (page : List ℕ) → KvmExit
  exit_mmio : (is_write : Bool) (phys_addr : ℕ) → List ℕ → (len : ℕ) → KvmExit
  exit_hlt : KvmExit
  exit_other : ℕ → KvmExit

module _ {S : Type 0} (handlers : Handlers S)
    (call : MmioCall → List MmioRegion × S → List MmioRegion × S) where
  -- The four accesses of `handle_exit_io`; each gives the page and the state after it.
  unfoldable pub exit_outb : IoExit → List ℕ → S → Exec (List ℕ × S)
  exit_outb io page s = do
    byte ← access (get_elem? page io.data_offset)
    done ← io_handle_outb handlers io.port byte s
    ok (page, done.1)

  unfoldable pub exit_outw : IoExit → List ℕ → S → Exec (List ℕ × S)
  exit_outw io page s = do
    word ← load_u16 page io.data_offset
    done ← io_handle_outw handlers io.port word s
    ok (page, done.1)

  unfoldable pub exit_inb : IoExit → List ℕ → S → Exec (List ℕ × S)
  exit_inb io page s = do
    byte ← access (get_elem? page io.data_offset)
    (_, output, s') ← io_handle_inb handlers io.port byte s
    ok (set page io.data_offset output, s')

  unfoldable pub exit_inw : IoExit → List ℕ → S → Exec (List ℕ × S)
  exit_inw io page s = do
    word ← load_u16 page io.data_offset
    (_, output, s') ← io_handle_inw handlers io.port word s
    page' ← store_u16 page io.data_offset output
    ok (page', s')

  -- `handle_exit_io`; an access of another size than 1 and 2 is dropped.
  unfoldable pub handle_exit_io : IoExit → List ℕ → S → Exec (List ℕ × S)
  unfolding exit_outb exit_outw exit_inb exit_inw
  handle_exit_io io page s = elim io.direction [
    | exit_io_out ↦
        if io.size == 1
        then exit_outb io page s
        else if io.size == 2
        then exit_outw io page s
        else ok (page, s)
    | exit_io_in ↦
        if io.size == 1
        then exit_inb io page s
        else if io.size == 2
        then exit_inw io page s
        else ok (page, s)
  ]

  -- The switch of `vm_run`: `none` where it returns 0, else the pages as they are left and the state.
  unfoldable pub handle_exit :
      KvmExit → List MmioRegion × S → Exec (Option (List (List ℕ) × (List MmioRegion × S)))
  unfolding handle_exit_io
  handle_exit run_failed (table, s) = ok none
  handle_exit (exit_io io page) (table, s) = do
    (page', s') ← handle_exit_io io page s
    ok (some (page' ∷ [], (table, s')))
  handle_exit (exit_mmio is_write phys_addr bytes len) (table, s) =
      if is_write
      then (do state ← mmio_handle_write call phys_addr bytes len (table, s); ok (some ([], state)))
      else ok (some ([], (table, s)))
  handle_exit exit_hlt (table, s) = ok (some ([], (table, s)))
  handle_exit (exit_other n) (table, s) = ok none

  -- `vm_run` on the exits to come; where they end the loop is still running.
  unfoldable pub vm_run_loop :
      List KvmExit → List MmioRegion × S → Exec (ℕ × List (List ℕ) × (List MmioRegion × S))
  unfolding handle_exit
  vm_run_loop [] state = out_of_fuel
  vm_run_loop (e ∷ es) state = do
    next ← handle_exit e state
    elim next [
      | none ↦ ok (0, [], state)
      | some (pages, state') ↦ do
        (result, pages', state'') ← vm_run_loop es state'
        ok (result, pages ++ pages', state'')
    ]

  -- `vm_run`, with whether `vm` and `vm->kvm_run` are there.
  unfoldable pub vm_run :
      (ready : Bool)
      → List KvmExit
      → List MmioRegion × S
      → Exec (ℕ × List (List ℕ) × (List MmioRegion × S))
  unfolding vm_run_loop
  vm_run ready exits state = if not ready then ok (0, [], state) else vm_run_loop exits state
