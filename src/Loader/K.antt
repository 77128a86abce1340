-- ===== src/Loader/K.antt =====
-- `setup_e820` and `load_k` of examples/k/main.c, with the layout of examples/k/multiboot.h.
-- An exit with a message is `none`, and a write past a region's end is a fault.
pub mod Boots
pub mod Image
use blackhv.Base.{
  ℕ, zero, suc, ◌+◌, ◌-◌, ◌*◌, ◌/◌, ◌%◌, ◌^◌, ◌≤◌, ◌<◌, min, ◌≡◌, refl, sym, ap, ◌∙◌, ◌≢◌, ◌↔◌, ◌⊎◌,
  inl, inr, Bool, true, false, not, ◌&&◌, ◌||◌, Option, none, some, List, [], ◌∷◌, ◌++◌, map,
  append_assoc, append-nil, arith, ltb, leb, ◌==◌, if◌then◌else◌, int_of, ==_iff, ==_refl, ==_false,
  lt→ltb, le→ltb, Bool-cases, Option-cases, length, get_elem?, set, take, drop, replicate, All,
  length-append, get_elem?-append, length-set, length-take, length-drop, length-replicate,
  get_elem?-set_self, get_elem?-set_ne, get_elem?-some, drop-cons_of_get, take_cons, set-append,
  take-drop, take-append_take, take_all, drop_all, minus_one, s64_of, add_u64, sub_u64,
  s64_of_small, ℤ, ◌>>=◌, access, Returns-mono, Returns-bind, Returns-value, bind_ok, Exec, Returns,
  ok, fault, out_of_fuel, returns, pos, negsuc,
}
use blackhv.Memory.{MemoryEntry}
use blackhv.Memory.Access.{Bytes, E820Entry, memory_get_ptr, e820_table_get}
use blackhv.Loader.{in_region, bounded, store, little_endian, Regs}
use blackhv.Loader.Segments.{ProgramHeader, load_segments}

abbrev pub multiboot_guest : ℕ
multiboot_guest = 0xC10000

abbrev pub cmdline_guest : ℕ
cmdline_guest = 0xC20000

abbrev pub memory_guest : ℕ
memory_guest = 0xC30000

abbrev pub multiboot_header_magic : ℕ
multiboot_header_magic = 0x1BADB002

-- The sizes of `multiboot_memory_map_t` and `multiboot_info_t`.
abbrev pub map_size : ℕ
map_size = 24

abbrev pub info_size : ℕ
info_size = 120

-- The four assignments to `guest_memory[i]`; the struct is packed.
unfoldable pub store_map : Bytes → (a : ℕ) → E820Entry → Bytes
unfolding store little_endian
store_map m a r =
    store
      (store (store (store m a (little_endian 4 map_size)) (a + 4) (little_endian 8 r.base_address))
        (a + 12) (little_endian 8 r.size))
      (a + 20) (little_endian 4 r.type)

-- The loop of `setup_e820` from index `i`, `n` entries of the table.
unfoldable pub fill_map : List E820Entry → (n i guest_memory : ℕ) → Bytes → Exec Bytes
unfolding store_map
fill_map rows zero i guest_memory m = ok m
fill_map rows (suc n) i guest_memory m = do
  r ← access (get_elem? rows i)
  fill_map rows n (i + 1) guest_memory (store_map m (guest_memory + i * map_size) r)

-- `setup_e820`, where `table` is what `e820_table_get` gives.
unfoldable pub setup_e820 :
    List MemoryEntry
    → (table : Option (ℕ × List E820Entry)) → (info : ℕ) → Bytes
    → Exec (Option Bytes)
unfolding fill_map
setup_e820 entries table info m =
    let m1 = store m (info + 48) (little_endian 4 memory_guest) in
    let guest_memory = memory_get_ptr entries memory_guest in
    if guest_memory == 0 then ok none else elim table [
      | none ↦ ok none
      | some (n, rows) ↦ bounded (in_region entries memory_guest (n * map_size)) (do
        m2 ← fill_map rows n 0 guest_memory m1
        let m3 = store m2 (info + 44) (little_endian 4 (n * map_size))
        ok (some (store m3 (info + 4) (little_endian 4 0x1000))))
    ]

-- The end of `load_k`, with what `vm_get_regs` reads and whether `vm_set_regs` succeeds.
unfoldable pub start_k : (get_regs : Option Regs) → (set_regs : Bool) → (e_entry : ℕ) → Option Regs
start_k none set_regs e_entry = none
start_k (some regs) set_regs e_entry =
    if set_regs
    then some (record regs { rax = multiboot_header_magic; rbx = multiboot_guest; rip = e_entry })
    else none

module _ (program_header : (image : List ℕ) → (i : ℕ) → Exec ProgramHeader)
    (e_phnum e_entry : (image : List ℕ) → ℕ) where
  -- The command line and the segments; `cmdline` has its zero byte.
  unfoldable pub load_image :
      List MemoryEntry → (multiboot : ℕ) → (image cmdline : List ℕ) → Bytes → Exec (Option Bytes)
  unfolding load_segments
  load_image entries multiboot image cmdline m =
      let guest_cmdline = memory_get_ptr entries cmdline_guest in
      if guest_cmdline == 0
      then ok none
      else bounded (in_region entries cmdline_guest (length cmdline)) (
          load_segments program_header entries image (e_phnum image) 0 (
            store (store m guest_cmdline cmdline) (multiboot + 16) (little_endian 4 cmdline_guest)))

  -- `load_k`, with whether the two allocations of `e820_table_get` succeed.
  unfoldable pub load_k :
      (table_memory entries_memory : Bool)
      → List MemoryEntry
      → (get_regs : Option Regs) → (set_regs : Bool) → (image cmdline : List ℕ) → Bytes
      → Exec (Option (Regs × Bytes))
  unfolding setup_e820 start_k load_image
  load_k table_memory entries_memory entries get_regs set_regs image cmdline m =
      let multiboot = memory_get_ptr entries multiboot_guest in
      if multiboot == 0
      then ok none
      else bounded (in_region entries multiboot_guest info_size) (do
        filled ←
            setup_e820 entries (e820_table_get table_memory entries_memory entries) multiboot
              (store m multiboot (replicate info_size 0))
        elim filled [
          | none ↦ ok none
          | some m1 ↦ (do
            loaded ← load_image entries multiboot image cmdline m1
            elim loaded [
              | none ↦ ok none
              | some m2 ↦ elim (start_k get_regs set_regs (e_entry image)) [
                | none ↦ ok none
                | some regs ↦ ok (some (regs, m2))
              ]
            ])
        ])
