-- ===== src/Memory.antt =====
-- src/memory.c: the regions of guest memory, their allocation and the lookup by guest address.
-- `vm->mem` is a `Memory`; its linked list of entries is the list of them in order, added to at its
-- end and walked from its front. What the operating system and
-- `malloc` answer is a `Host`, and the calls made to them are recorded.
pub mod Regions
pub mod Lookup
pub mod Access
pub mod Transfer
pub mod Table
pub mod Limits
pub mod Linked
pub mod Balance
pub mod Tests
use blackhv.Base.{
  ℕ, zero, suc, ◌+◌, ◌-◌, ◌*◌, ◌/◌, ◌%◌, ◌^◌, ◌≤◌, ◌<◌, min, ◌≡◌, refl, sym, ap, ◌∙◌, ◌≢◌, ◌↔◌, ◌⊎◌,
  inl, inr, Bool, true, false, not, ◌&&◌, ◌||◌, Option, none, some, List, [], ◌∷◌, ◌++◌, map,
  append_assoc, append-nil, arith, ltb, leb, ◌==◌, if◌then◌else◌, int_of, ==_iff, ==_refl, ==_false,
  lt→ltb, le→ltb, Bool-cases, Option-cases, length, get_elem?, set, take, drop, replicate, All,
  length-append, length-set, length-take, length-drop, length-replicate, get_elem?-set_self,
  get_elem?-set_ne, get_elem?-some, drop-cons_of_get, take_cons, minus_one, s64_of, add_u64,
  sub_u64, ℤ, ◌>>=◌, access, Returns-mono, Returns-bind, Returns-value, Exec, Returns, ok, fault,
  out_of_fuel, returns, pos, negsuc,
}

abbrev pub memory_usable : ℕ
memory_usable = 1

abbrev pub memory_mmio : ℕ
memory_mmio = 2

abbrev pub memory_framebuffer : ℕ
memory_framebuffer = 3

-- `struct memory_entry`; `memory_ptr` is an address of the host, 0 for NULL.
pub record MemoryEntry : Type 0 where
  pub memory_ptr : ℕ
  pub guest_phys : ℕ
  pub size : ℕ
  pub slot : ℕ
  pub type : ℕ

-- `struct memory`.
pub record Memory : Type 0 where
  pub memory_entries : List MemoryEntry
  pub next_slot : ℕ

-- The answers to one call of `memory_alloc`: whether `malloc` gives an entry and a list element, the
-- address that `mmap` returns, and whether KVM accepts the region.
pub record Host : Type 0 where
  pub entry_memory : Bool
  pub mmap_result : ℕ
  pub region_accepted : Bool
  pub element_memory : Bool

pub data HostCall : Type 0 where
  mmap : (address size : ℕ) → HostCall
  munmap : (address size : ℕ) → HostCall
  set_user_memory_region : (slot guest_phys size address : ℕ) → HostCall

-- `entry->guest_phys <= addr && (entry->guest_phys + entry->size) > addr`
abbrev pub covers : MemoryEntry → ℕ → Bool
covers e addr = leb e.guest_phys addr && ltb addr (add_u64 e.guest_phys e.size)

-- `find_entry`.
unfoldable pub find_entry : List MemoryEntry → ℕ → Option MemoryEntry
find_entry [] addr = none
find_entry (e ∷ es) addr = if covers e addr then some e else find_entry es addr

-- The condition under which `check_addr_available` refuses an entry.
abbrev pub clashes : MemoryEntry → (phys_addr size : ℕ) → Bool
clashes e phys_addr size =
    covers e phys_addr || (leb e.guest_phys (add_u64 phys_addr size) && ltb phys_addr e.guest_phys)

-- `check_addr_available`.
unfoldable pub check_addr_available : List MemoryEntry → (phys_addr size : ℕ) → ℕ
check_addr_available [] phys_addr size = 1
check_addr_available (e ∷ es) phys_addr size =
    if clashes e phys_addr size then 0 else check_addr_available es phys_addr size

-- `allocate_usable`: the entry, the memory with its next slot, and the calls made.
unfoldable pub allocate_usable :
    Host → Memory → (phys_addr size : ℕ) → Option MemoryEntry × Memory × List HostCall
allocate_usable host mem phys_addr size =
    if not host.entry_memory
    then (none, mem, [])
    else if host.mmap_result == 0
    then (none, mem, mmap 0 size ∷ [])
    else if not host.region_accepted
    then (
      none,
      mem,
      mmap host.mmap_result size
          ∷ set_user_memory_region mem.next_slot phys_addr size host.mmap_result
          ∷ munmap host.mmap_result size
          ∷ [],
    )
    else (
      some (record {
        memory_ptr = host.mmap_result;
        guest_phys = phys_addr;
        size = size;
        slot = mem.next_slot;
        type = memory_usable;
      }),
      record mem { next_slot = (mem.next_slot + 1) % 2 ^ 32 },
      mmap host.mmap_result size
          ∷ set_user_memory_region mem.next_slot phys_addr size host.mmap_result
          ∷ [],
    )

-- `allocate_mmio`.
unfoldable pub allocate_mmio : Host → (phys size : ℕ) → Option MemoryEntry
allocate_mmio host phys size =
    if not host.entry_memory
    then none
    else some
        (record { memory_ptr = 0; guest_phys = phys; size = size; slot = 0; type = memory_mmio })

-- The switch of `memory_alloc` on the type.
unfoldable pub allocate :
    Host → Memory → (phys_addr size type : ℕ) → Option MemoryEntry × Memory × List HostCall
unfolding allocate_usable allocate_mmio
allocate host mem phys_addr size type =
    if (type == memory_framebuffer) || (type == memory_usable)
    then allocate_usable host mem phys_addr size
    else if type == memory_mmio
    then (allocate_mmio host phys_addr size, mem, [])
    else (none, mem, [])

-- `linked_list_add(vm->mem->memory_entries, entry)`, whose result `memory_alloc` does not look at.
unfoldable pub add_entry : Host → Memory → MemoryEntry → Memory
add_entry host mem e =
    if host.element_memory
    then record mem { memory_entries = mem.memory_entries ++ (e ∷ []) }
    else mem

-- `memory_alloc`; `none` for a NULL vm.
unfoldable pub memory_alloc :
    Host → Option Memory → (phys_addr size type : ℕ) → ℕ × Option Memory × List HostCall
unfolding allocate add_entry
memory_alloc host none phys_addr size type = (0, none, [])
memory_alloc host (some mem) phys_addr size type =
    if check_addr_available mem.memory_entries phys_addr size == 0
    then (0, some mem, [])
    else (let (entry, mem', calls) = allocate host mem phys_addr size type in
        elim entry [
          | none ↦ (0, some mem', calls)
          | some e ↦ (1, some (add_entry host mem' e), calls)
        ])

-- `memory_new`, with whether the two allocations succeed.
unfoldable pub memory_new : (struct_memory list_memory : Bool) → Option Memory
memory_new struct_memory list_memory =
    if struct_memory && list_memory
    then some (record { memory_entries = []; next_slot = 0 })
    else none

-- `free_memory_entry` on an entry, and `memory_destroy`: what is unmapped, in order.
unfoldable pub free_memory_entry : MemoryEntry → List HostCall
free_memory_entry e = if e.type == memory_usable then munmap e.memory_ptr e.size ∷ [] else []

unfoldable pub unmap_all : List MemoryEntry → List HostCall
unfolding free_memory_entry
unmap_all [] = []
unmap_all (e ∷ es) = free_memory_entry e ++ unmap_all es

unfoldable pub memory_destroy : Option Memory → List HostCall
unfolding unmap_all
memory_destroy none = []
memory_destroy (some mem) = unmap_all mem.memory_entries
