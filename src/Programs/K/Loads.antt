-- ===== src/Programs/K/Loads.antt =====
-- What `main` of examples/k/main.c is granted, and the loading of the image into the memory that it
-- allocated.
use blackhv.Base.{ℕ, ◌≡◌, refl, true, some, List, [], ◌∷◌, replicate, Exec, Returns}
use blackhv.Memory.{Memory}
use blackhv.Memory.Access.{Bytes}
use blackhv.Vm.{Vm}
use blackhv.Loader.{store, Regs}
use blackhv.Loader.Segments.{ProgramHeader}
use blackhv.Loader.K.{multiboot_guest, multiboot_header_magic, info_size}
use blackhv.Loader.K.Image.{Booted, info_at}
use blackhv.Programs.{entries_of, gb_1}
use blackhv.Programs.Granted.{GrantsFile, GrantsSerial, load_file-mapped}
use blackhv.Programs.Ram.{Grants, GrantsRam, ram, fresh_vm}
use blackhv.Programs.K.{KHost, load_mapped}
use blackhv.Programs.K.Layout.{Layout, layout-Site, layout-WellFormed}
use blackhv.Loader.K.{load_k}
use blackhv.Loader.K.Image.{load_k-Booted}
use blackhv.Memory.{Memory}

-- What the kernel, `malloc` and SDL grant, and the regions of the serial port's buffers.
pub record GrantsK (host : KHost) (regs : Regs) (g h : List ℕ) : Type 0 where
  pub arguments : host.argc ≡ 4
  pub vm : Grants host.vm_host
  pub memory : GrantsRam host.ram_host gb_1
  pub file : GrantsFile host.image_file
  pub table : host.table_memory ≡ true
  pub rows : host.entries_memory ≡ true
  pub read : host.get_regs ≡ some regs
  pub written : host.set_regs ≡ true
  pub serial : GrantsSerial host.serial_memory g h
  pub screen : host.sdl.screen_memory ≡ true

-- The machine with its memory.
abbrev pub ram_vm : KHost → Vm
ram_vm host = record (fresh_vm host.vm_host) {
  mem = some (record { memory_entries = ram host.ram_host.mmap_result gb_1 ∷ []; next_slot = 1 });
}

module _ (program_header : (image : List ℕ) → (i : ℕ) → Exec ProgramHeader)
    (e_phnum e_entry : (image : List ℕ) → ℕ) (read_at : (fd offset : ℕ) → List ℕ) where
  load_k-granted :
      (host : KHost) (regs : Regs) (g h : List ℕ) (vm : Vm) (mem : Memory) (m : Bytes)
      → GrantsK host regs g h
      → vm.mem ≡ some mem
      → mem.memory_entries ≡ ram host.ram_host.mmap_result gb_1 ∷ []
      → load_k program_header e_phnum e_entry host.table_memory host.entries_memory
          (entries_of vm)
          host.get_regs
          host.set_regs
          host.image
          host.cmdline
          m
        ≡ load_k program_header e_phnum e_entry true true
            (ram host.ram_host.mmap_result gb_1 ∷ [])
            (some regs)
            true
            host.image
            host.cmdline
            m
  load_k-granted host regs g h vm mem m k here one =
      let listed : entries_of vm ≡ ram host.ram_host.mmap_result gb_1 ∷ [] = rw (here, one) refl in
      rw (k.table, k.rows, k.read, k.written, listed) refl

  load_mapped_lem :
      (host : KHost) (regs : Regs) (g h : List ℕ) (vm : Vm) (mem : Memory) (m : Bytes)
      → GrantsK host regs g h
      → vm.mem ≡ some mem
      → mem.memory_entries ≡ ram host.ram_host.mmap_result gb_1 ∷ []
      → load_mapped program_header e_phnum e_entry read_at host vm m
        ≡ load_k program_header e_phnum e_entry true true
            (ram host.ram_host.mmap_result gb_1 ∷ [])
            (some regs)
            true
            host.image
            host.cmdline
            m
  unfolding load_mapped
  load_mapped_lem host regs g h vm mem m k here one =
      rw (load_file-mapped host.image_file k.file, load_mapped)
        (load_k-granted host regs g h vm mem m k here one)

  pub load_mapped-Booted :
      (host : KHost) (regs : Regs) (g h : List ℕ) (headers : ℕ → ProgramHeader) (vm : Vm)
      (mem : Memory) (m : Bytes)
      → GrantsK host regs g h
      → Layout program_header (e_phnum host.image) host.image host.cmdline headers
      → vm.mem ≡ some mem
      → mem.memory_entries ≡ ram host.ram_host.mmap_result gb_1 ∷ []
      → Returns
          (λ r.
            (m' : Bytes) × (r
              ≡ some (
                record regs {
                  rax = multiboot_header_magic;
                  rbx = multiboot_guest;
                  rip = e_entry host.image;
                },
                m',
              ))
            × Booted
                (ram host.ram_host.mmap_result gb_1 ∷ [])
                host.image
                host.cmdline
                (e_phnum host.image)
                headers
                (store m
                  (info_at (ram host.ram_host.mmap_result gb_1 ∷ []))
                  (replicate info_size 0))
                m')
          (load_mapped program_header e_phnum e_entry read_at host vm m)
  load_mapped-Booted host regs g h headers vm mem m k layout here one =
      let p = host.ram_host.mmap_result in
      rw (load_mapped_lem host regs g h vm mem m k here one) (
        load_k-Booted program_header e_phnum e_entry (ram p gb_1 ∷ []) host.image host.cmdline
          headers m regs
          (layout-Site program_header e_phnum e_entry host.image host.cmdline headers p
            k.memory.mapped k.memory.within layout)
          (layout-WellFormed program_header e_phnum e_entry host.image host.cmdline headers p
            k.memory.mapped k.memory.within layout))
