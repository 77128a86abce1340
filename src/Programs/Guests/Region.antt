-- ===== src/Programs/Guests/Region.antt =====
-- The region that `main` of examples/guests/main.c registers, and the rows of memory that it prints.
use blackhv.Base.{ℕ, ◌≡◌, refl, ap, ◌∙◌, true, false, Option, none, some, List, [], ◌∷◌, set, ok}
use blackhv.Memory.{
  HostCall, MemoryEntry, Memory, Host, memory_alloc, memory_mmio, check_addr_available, allocate,
  allocate_mmio, add_entry,
}
use blackhv.Memory.Access.{e820_table_get, e820_loop, e820_entry}
use blackhv.Mmio.{MmioRegion, mmio_init, mmio_register, take_slot}
use blackhv.Vm.{is_negative}
use blackhv.Programs.{mb_1, no_regions}
use blackhv.Programs.Ram.{ram}
use blackhv.Programs.Guests.{main_region, dump_e820_table, dump_rows}

-- The MMIO region that `main` registers, in the machine's memory.
abbrev pub device : MemoryEntry
device = record {
  memory_ptr = 0;
  guest_phys = 0xC0000000;
  size = 0x1000000;
  slot = 0;
  type = memory_mmio;
}

allocate-device :
    (host : Host) (mem : Memory)
    → host.entry_memory ≡ true
    → allocate host mem 0xC0000000 0x1000000 memory_mmio ≡ (some device, mem, [])
unfolding allocate allocate_mmio
allocate-device host mem given = rw given refl

pub memory_alloc-device :
    (host : Host) (p : ℕ)
    → host.entry_memory ≡ true
    → host.element_memory ≡ true
    → memory_alloc host
        (some (record { memory_entries = ram p mb_1 ∷ []; next_slot = 1 }))
        0xC0000000
        0x1000000
        memory_mmio
      ≡ (1, some (record { memory_entries = ram p mb_1 ∷ device ∷ []; next_slot = 1 }), [])
unfolding memory_alloc check_addr_available add_entry
memory_alloc-device host p given listed =
    let mem : Memory = record { memory_entries = ram p mb_1 ∷ []; next_slot = 1 } in
    ap
      (λ (made : Option MemoryEntry × Memory × List HostCall).
        let allocated : ℕ × Option Memory × List HostCall = elim made.0 [
          | none ↦ (0, some made.1, made.2)
          | some e ↦ (1, some (add_entry host made.1 e), made.2)
        ] in
        allocated)
      (allocate-device host mem given)
    ∙ rw listed refl

-- The table after the registration.
abbrev pub main_table : (handler : ℕ) → List MmioRegion
main_table handler = set (mmio_init no_regions) 0 (main_region handler)

pub registered :
    (host : Host) (p handler : ℕ) (mem : Option Memory)
    → host.entry_memory ≡ true
    → host.element_memory ≡ true
    → mem ≡ some (record { memory_entries = ram p mb_1 ∷ []; next_slot = 1 })
    → let reg = mmio_register host mem (main_region handler) (mmio_init no_regions) in
      (is_negative reg.result ≡ false)
      × (reg.table ≡ main_table handler)
      × (reg.mem ≡ some (record { memory_entries = ram p mb_1 ∷ device ∷ []; next_slot = 1 }))
unfolding mmio_register mmio_init take_slot
registered host p handler mem given listed here =
    rw (here, memory_alloc-device host p given listed) (refl, refl, refl)

-- The two rows.
pub dumped-rows :
    (p : ℕ)
    → dump_e820_table (e820_table_get true true (ram p mb_1 ∷ device ∷ []))
      ≡ ok ((0, mb_1, 1) ∷ (0xC0000000, 0x1000000, 2) ∷ [])
unfolding dump_e820_table dump_rows e820_table_get e820_loop e820_entry
dumped-rows p = refl
