-- ===== src/Loader/Linux.antt =====
-- examples/linux/main.c: a Linux image put into memory. `struct boot_params` comes from the kernel's
-- asm/bootparam.h: its size and its fields are parameters. An exit with a
-- message is `none`, and a write past a region's end is a fault.
pub mod Kernel
pub mod Params
pub mod Tests
use Prim.Native.Nat.{bit_or}
use blackhv.Base.{
  ℕ, zero, suc, ◌+◌, ◌-◌, ◌*◌, ◌/◌, ◌%◌, ◌^◌, ◌≤◌, ◌<◌, min, ◌≡◌, refl, sym, ap, ◌∙◌, ◌≢◌, ◌↔◌, ◌⊎◌,
  inl, inr, Bool, true, false, not, ◌&&◌, ◌||◌, Option, none, some, List, [], ◌∷◌, ◌++◌, map,
  append_assoc, append-nil, arith, ltb, leb, ◌==◌, if◌then◌else◌, int_of, ==_iff, ==_refl, ==_false,
  lt→ltb, le→ltb, Bool-cases, Option-cases, length, get_elem?, set, take, drop, replicate, All,
  length-append, get_elem?-append, length-set, length-take, length-drop, length-replicate,
  get_elem?-set_self, get_elem?-set_ne, get_elem?-some, drop-cons_of_get, take_cons, set-append,
  take-drop, take-append_take, take_all, drop_all, minus_one, s64_of, add_u64, sub_u64, ℤ, ◌>>=◌,
  access, Returns-mono, Returns-bind, Returns-value, Exec, Returns, ok, fault, out_of_fuel, returns,
  pos, negsuc,
}
use blackhv.Memory.{MemoryEntry}
use blackhv.Memory.Access.{Bytes, E820Entry, memory_get_ptr, e820_table_get}
use blackhv.Loader.{in_region, bounded, store, clear_and_copy, source_bytes, Regs}

abbrev pub boot_params_addr : ℕ
boot_params_addr = 0x10000

abbrev pub real_mode_addr : ℕ
real_mode_addr = 0x90000

abbrev pub kernel_addr : ℕ
kernel_addr = 0x100000

-- "console=ttyS0".
abbrev pub cmd_line : List ℕ
cmd_line = 99 ∷ 111 ∷ 110 ∷ 115 ∷ 111 ∷ 108 ∷ 101 ∷ 61 ∷ 116 ∷ 116 ∷ 121 ∷ 83 ∷ 48 ∷ []

-- CAN_USE_HEAP | LOADED_HIGH | KEEP_SEGMENTS, of asm/bootparam.h.
abbrev pub load_flags : ℕ
load_flags = bit_or (bit_or 0x80 0x01) 0x40

-- The fields of `boot_params->hdr` that the program uses; their widths are in `HasWidths`.
pub record SetupHeader : Type 0 where
  pub setup_sects : ℕ
  pub vid_mode : ℕ
  pub type_of_loader : ℕ
  pub loadflags : ℕ
  pub code32_start : ℕ
  pub ramdisk_image : ℕ
  pub ramdisk_size : ℕ
  pub heap_end_ptr : ℕ
  pub ext_loader_ver : ℕ
  pub ext_loader_type : ℕ
  pub cmd_line_ptr : ℕ
  pub cmdline_size : ℕ

-- The fields are words of 8, 16 and 32 bits.
pub record HasWidths (h : SetupHeader) : Type 0 where
  pub setup_sects : h.setup_sects < 2 ^ 8
  pub vid_mode : h.vid_mode < 2 ^ 16
  pub type_of_loader : h.type_of_loader < 2 ^ 8
  pub loadflags : h.loadflags < 2 ^ 8
  pub code32_start : h.code32_start < 2 ^ 32
  pub ramdisk_image : h.ramdisk_image < 2 ^ 32
  pub ramdisk_size : h.ramdisk_size < 2 ^ 32
  pub heap_end_ptr : h.heap_end_ptr < 2 ^ 16
  pub ext_loader_ver : h.ext_loader_ver < 2 ^ 8
  pub ext_loader_type : h.ext_loader_type < 2 ^ 8
  pub cmd_line_ptr : h.cmd_line_ptr < 2 ^ 32
  pub cmdline_size : h.cmdline_size < 2 ^ 32

unfoldable pub set_setup_header : SetupHeader → SetupHeader
set_setup_header hdr = record hdr {
  vid_mode = 0xFFFF;
  type_of_loader = 0xFF;
  ramdisk_image = 0;
  ramdisk_size = 0;
  ext_loader_ver = 0;
  ext_loader_type = 0;
  loadflags = bit_or hdr.loadflags load_flags % 2 ^ 8;
  heap_end_ptr = 0xE000 - 0x200;
  cmd_line_ptr = real_mode_addr + (0xE000 - 0x200);
}

-- Where the kernel starts in the image: behind the boot sector and the set-up's sectors.
abbrev pub setup_size : (setup_sects : ℕ) → ℕ
setup_size setup_sects = ((if ltb setup_sects 4 then 4 else setup_sects) + 1) * 512

-- `load_image_into_memory`; `size_t` wraps around when the image is smaller than its set-up.
unfoldable pub load_image_into_memory :
    List MemoryEntry
    → (setup_sects : ℕ) → (image : List ℕ) → (image_size : ℕ) → Bytes
    → Exec (Option Bytes)
unfolding store source_bytes
load_image_into_memory entries setup_sects image image_size m =
    let kernel = memory_get_ptr entries kernel_addr in
    let kernel_size = sub_u64 image_size (setup_size setup_sects) in
    if kernel == 0 then ok none else do
      bytes ← source_bytes image (setup_size setup_sects) kernel_size
      bounded (in_region entries kernel_addr kernel_size) (ok (some (store m kernel bytes)))

-- The end of `load_linux`, with what `vm_get_regs` reads and whether `vm_set_regs` succeeds.
unfoldable pub start_linux :
    (get_regs : Option Regs) → (set_regs : Bool) → (code32_start : ℕ) → Option Regs
start_linux none set_regs code32_start = none
start_linux (some regs) set_regs code32_start =
    if set_regs then some (record regs { rsi = boot_params_addr; rip = code32_start }) else none

-- The fields of `struct boot_params`, at its address: the header, the table's entries and their number.
module _ (boot_params_size : ℕ) (get_header : Bytes → (boot_params : ℕ) → SetupHeader)
    (put_header : Bytes → (boot_params : ℕ) → SetupHeader → Bytes)
    (put_e820 : Bytes → (boot_params i : ℕ) → E820Entry → Bytes)
    (put_e820_entries : Bytes → (boot_params length : ℕ) → Bytes) where
  -- The loop of `setup_e820` from index `i`, `n` entries.
  unfoldable pub fill_e820 : List E820Entry → (n i boot_params : ℕ) → Bytes → Exec Bytes
  fill_e820 rows zero i boot_params m = ok m
  fill_e820 rows (suc n) i boot_params m = do
    r ← access (get_elem? rows i)
    fill_e820 rows n (i + 1) boot_params (put_e820 m boot_params i r)

  unfoldable pub setup_e820 :
      (table : Option (ℕ × List E820Entry)) → (boot_params : ℕ) → Bytes → Exec (Option Bytes)
  unfolding fill_e820
  setup_e820 none boot_params m = ok none
  setup_e820 (some (n, rows)) boot_params m = do
    m' ← fill_e820 rows n 0 boot_params m
    ok (some (put_e820_entries m' boot_params n))

  -- The command line, and then the image.
  unfoldable pub load_kernel :
      List MemoryEntry
      → (boot_params : ℕ) → (image : List ℕ) → (image_size : ℕ) → Bytes
      → Exec (Option Bytes)
  unfolding load_image_into_memory clear_and_copy
  load_kernel entries boot_params image image_size m =
      let hdr = get_header m boot_params in
      let cmdline = memory_get_ptr entries hdr.cmd_line_ptr in
      let m1 = clear_and_copy m cmdline hdr.cmdline_size cmd_line in
      if cmdline == 0
      then ok none
      else bounded
          (in_region entries hdr.cmd_line_ptr hdr.cmdline_size
            && in_region entries hdr.cmd_line_ptr (length cmd_line))
          (load_image_into_memory entries (get_header m1 boot_params).setup_sects image image_size
            m1)

  -- `load_linux`, with whether the two allocations of `e820_table_get` succeed.
  unfoldable pub load_linux :
      (table_memory entries_memory : Bool)
      → List MemoryEntry
      → (get_regs : Option Regs) → (set_regs : Bool) → (image : List ℕ) → (image_size : ℕ) → Bytes
      → Exec (Option (Regs × Bytes))
  unfolding setup_e820 load_kernel start_linux clear_and_copy
  load_linux table_memory entries_memory entries get_regs set_regs image image_size m =
      let boot_params = memory_get_ptr entries boot_params_addr in
      if boot_params == 0
      then ok none
      else bounded (in_region entries boot_params_addr boot_params_size) (do
        bytes ← source_bytes image 0 boot_params_size
        let m1 = clear_and_copy m boot_params boot_params_size bytes
        let m2 = put_header m1 boot_params (set_setup_header (get_header m1 boot_params))
        filled ← setup_e820 (e820_table_get table_memory entries_memory entries) boot_params m2
        elim filled [
          | none ↦ ok none
          | some m3 ↦ (do
            loaded ← load_kernel entries boot_params image image_size m3
            elim loaded [
              | none ↦ ok none
              | some m4 ↦
                  elim (start_linux get_regs set_regs (get_header m4 boot_params).code32_start) [
                    | none ↦ ok none
                    | some regs ↦ ok (some (regs, m4))
                  ]
            ])
        ])
