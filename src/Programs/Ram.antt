-- ===== src/Programs/Ram.antt =====
-- The machine that `init_vm` of examples/k/main.c and examples/linux/main.c makes, and its memory.
use blackhv.Base.{
  ℕ, ◌+◌, ◌-◌, ◌^◌, ◌≤◌, ◌<◌, ◌≡◌, refl, ap, ◌∙◌, ◌≢◌, inl, inr, true, false, Option, none, some,
  List, [], ◌∷◌, arith, ◌==◌, if◌then◌else◌, ==_false, Option-cases, Returns-bind, Returns, ok,
  returns, pos,
}
use blackhv.Memory.{
  Memory, HostCall, mmap, set_user_memory_region, MemoryEntry, Host, memory_alloc, memory_usable,
  memory_new, find_entry, check_addr_available, allocate, allocate_usable, add_entry, mmap,
  set_user_memory_region,
}
use blackhv.Memory.Access.{memory_get_ptr}
use blackhv.Memory.Lookup.{find_entry_complete}
use blackhv.Memory.Transfer.{memory_get_ptr-host_at}
use blackhv.Vm.{Vm, is_negative, vm_new}
use blackhv.Vm.Vcpu.{is_zero, set_protected_mode}
use blackhv.Vm.Setup.{Accepts, enter_mode, vm_vcpu_init_state-enter_mode}
use blackhv.Screen.{Sdl, screen_init}
use blackhv.Screen.Resources.{screen_init-Initialized}
use blackhv.Loader.{in_region}
use blackhv.Programs.{start_screen, VmHost, init_vm, give_memory, vm_mode}

-- The kernel and `malloc` grant what `init_vm` asks for.
pub record Grants (host : VmHost) : Type 0 where
  pub opened : is_negative host.fd ≡ false
  pub created : is_negative host.vm_fd ≡ false
  pub vm_given : host.vm_memory ≡ true
  pub struct_given : host.struct_memory ≡ true
  pub list_given : host.list_memory ≡ true
  pub accepts : Accepts host.kvm
  pub sregs_read : is_negative host.kvm.get_sregs ≡ false
  pub sregs_set : is_zero host.kvm.set_sregs ≡ true

-- The machine that is made, without memory.
abbrev pub fresh_vm : VmHost → Vm
fresh_vm host = record {
  kvm_fd = host.fd;
  vm_fd = host.vm_fd;
  vcpu_fd = host.kvm.create_vcpu;
  kvm_run = host.kvm.mmap_result;
  mem = some (record { memory_entries = []; next_slot = 0 });
}

enter_mode-granted : (host : VmHost) → Grants host → is_zero (enter_mode host.kvm vm_mode).0 ≡ false
unfolding set_protected_mode
enter_mode-granted host g = rw (g.sregs_read, g.sregs_set) refl

pub init_vm-fresh_vm : (host : VmHost) → Grants host → init_vm host ≡ ok (some (fresh_vm host))
unfolding init_vm vm_new memory_new
init_vm-fresh_vm host g =
    let vm : Vm = record {
      kvm_fd = host.fd;
      vm_fd = host.vm_fd;
      vcpu_fd = pos 0;
      kvm_run = 0;
      mem = some (record { memory_entries = []; next_slot = 0 });
    } in
    let is = vm_vcpu_init_state-enter_mode host.kvm vm 0xffffd000 0xffffc000 vm_mode g.accepts in
    rw (g.opened, g.created, g.vm_given, g.struct_given, g.list_given)
      (ap (λ o. if is_zero o.result then ok none else ok (some o.vm)) is
        ∙ rw (enter_mode-granted host g) refl)

-- The memory of the guest: `size` bytes from address 0 on, at `p` in the host.
abbrev pub ram : (p size : ℕ) → MemoryEntry
ram p size = record { memory_ptr = p; guest_phys = 0; size = size; slot = 0; type = memory_usable }

-- The host grants a mapping that lies in the address space.
pub record GrantsRam (host : Host) (size : ℕ) : Type 0 where
  pub entry : host.entry_memory ≡ true
  pub element : host.element_memory ≡ true
  pub region : host.region_accepted ≡ true
  pub mapped : host.mmap_result ≢ 0
  pub within : host.mmap_result + size < 2 ^ 64

allocate-ram :
    (host : Host) (size : ℕ)
    → GrantsRam host size
    → allocate host (record { memory_entries = []; next_slot = 0 }) 0 size memory_usable ≡ (
      some (ram host.mmap_result size),
      record { memory_entries = []; next_slot = 1 },
      mmap host.mmap_result size ∷ set_user_memory_region 0 0 size host.mmap_result ∷ [],
    )
unfolding allocate allocate_usable
allocate-ram host size g =
    let there : (host.mmap_result == 0) ≡ false = ==_false host.mmap_result 0 g.mapped in
    rw (g.entry, there, g.region) refl

pub memory_alloc-ram :
    (host : Host) (size : ℕ)
    → GrantsRam host size
    → memory_alloc host (some (record { memory_entries = []; next_slot = 0 })) 0 size memory_usable
      ≡ (
        1,
        some (record { memory_entries = ram host.mmap_result size ∷ []; next_slot = 1 }),
        mmap host.mmap_result size ∷ set_user_memory_region 0 0 size host.mmap_result ∷ [],
      )
unfolding memory_alloc check_addr_available add_entry
memory_alloc-ram host size g =
    ap
      (λ (made : Option MemoryEntry × Memory × List HostCall).
        let allocated : ℕ × Option Memory × List HostCall = elim made.0 [
          | none ↦ (0, some made.1, made.2)
          | some e ↦ (1, some (add_entry host made.1 e), made.2)
        ] in
        allocated)
      (allocate-ram host size g)
    ∙ rw g.element refl

pub give_memory-ram :
    (host : Host) (vm : Vm) (size : ℕ)
    → vm.mem ≡ some (record { memory_entries = []; next_slot = 0 })
    → GrantsRam host size
    → give_memory host vm size
      ≡ some (record vm {
        mem = some (record { memory_entries = ram host.mmap_result size ∷ []; next_slot = 1 });
      })
unfolding give_memory
give_memory-ram host vm size empty g = rw (empty, memory_alloc-ram host size g) refl

-- A pointer into it.

find_entry-ram :
    (p size a : ℕ)
    → a < size
    → p + size < 2 ^ 64
    → find_entry (ram p size ∷ []) a ≡ some (ram p size)
unfolding find_entry
find_entry-ram p size a within bound =
    find_entry_complete (ram p size ∷ []) a 0 (omega arith, tt, tt) refl (omega arith, omega arith)

pub in_region-ram :
    (p size a n : ℕ)
    → a < size
    → p + size < 2 ^ 64
    → a + n ≤ size
    → in_region (ram p size ∷ []) a n ≡ true
unfolding in_region
in_region-ram p size a n within bound ends =
    rw (find_entry-ram p size a within bound, in_region) (ground (arith, ends))

pub memory_get_ptr-ram :
    (p size a : ℕ) → a < size → p + size < 2 ^ 64 → memory_get_ptr (ram p size ∷ []) a ≡ p + a
unfolding find_entry
memory_get_ptr-ram p size a within bound =
    let found : find_entry (ram p size ∷ []) a ≡ some (ram p size) =
      find_entry_complete (ram p size ∷ []) a 0 (omega arith, tt, tt) refl
        (omega arith, omega arith) in
    let none_before : a - 0 ≡ a = omega arith in
    rw none_before at (
      memory_get_ptr-host_at (ram p size ∷ []) a found refl (omega arith) (omega arith, omega arith)
        (omega arith))

-- The screen does not change the processor's page.
pub start_screen_lem :
    (host : Host) (sdl : Sdl) (vm : Vm) (p : ℕ)
    → sdl.screen_memory ≡ true
    → Returns (λ (vm', screen). vm'.kvm_run ≡ vm.kvm_run) (start_screen host sdl vm p)
unfolding start_screen screen_init
start_screen_lem host sdl vm p there = elim (Option-cases vm.mem) [
  | inl none_there ↦ rw none_there (returns refl)
  | inr (mem, is) ↦ rw is (
      Returns-bind (screen_init-Initialized host sdl (record { mem = mem; screen = none }) p there)
        λ (result, vm', calls) done. elim (Option-cases vm') [
          | inl gone ↦ rw gone (returns refl)
          | inr (v, there') ↦ rw there' (returns refl)
        ])
]
