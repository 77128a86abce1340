-- ===== src/Programs/K/Starts.antt =====
-- `main` of examples/k/main.c up to the call of `vm_run`, where all that it asks for is granted, and
-- what it returns.
use blackhv.Base.{
  ℕ, ◌+◌, ◌<◌, ◌≡◌, refl, ◌∙◌, true, some, List, [], ◌∷◌, arith, ◌==◌, replicate, Returns-mono,
  Returns-bind, Exec, Returns, returns,
}
use blackhv.Memory.Access.{Bytes}
use blackhv.Serial.Registers.{Carries}
use blackhv.Atapi.{initial, primary_reg}
use blackhv.Atapi.Init.{IsAtaPort, data_handler, signature_inb_handler, atapi_init-registers}
use blackhv.Vm.{Vm}
use blackhv.Loader.{store, Regs}
use blackhv.Loader.Segments.{ProgramHeader}
use blackhv.Loader.K.{multiboot_guest, multiboot_header_magic, info_size}
use blackhv.Loader.K.Image.{Booted, info_at}
use blackhv.Machine.{serial_handler, on_drive}
use blackhv.Programs.{gb_1, com1, u64_of, init_vm}
use blackhv.Programs.Granted.{serial_new-granted}
use blackhv.Programs.Ram.{start_screen_lem, ram, fresh_vm, init_vm-fresh_vm, give_memory-ram}
use blackhv.Programs.K.{KHost, Launched, start_devices, launch, framebuffer_guest}
use blackhv.Programs.K.Loads.{GrantsK, ram_vm, load_mapped-Booted}
use blackhv.Programs.K.Layout.{Layout}

module _ (program_header : (image : List ℕ) → (i : ℕ) → Exec ProgramHeader)
    (e_phnum e_entry : (image : List ℕ) → ℕ) (read_at : (fd offset : ℕ) → List ℕ) where
  -- The devices, the table with their handlers, and the processor's page.
  pub record Ready (host : KHost) (kvm_run : ℕ) (l : Launched) : Type 0 where
    pub line : Carries l.devices.serial 1024 [] []
    pub port : l.devices.serial.port ≡ com1
    pub drive : l.devices.drive ≡ initial
    pub serial_ports : (i : ℕ) → i < 8 → l.handlers (com1 + i) ≡ serial_handler host.serial_address
    pub data_port : l.handlers primary_reg ≡ on_drive data_handler
    pub count_port :
        l.handlers (primary_reg + 2)
        ≡ on_drive (signature_inb_handler read_at (u64_of host.disk_fd))
    pub page : l.vm.kvm_run ≡ kvm_run

  -- The program when it calls `vm_run`.
  pub record Started (host : KHost) (regs : Regs) (headers : ℕ → ProgramHeader) (m : Bytes)
      (l : Launched) : Type 0 where
    pub bytes :
        Booted
          (ram host.ram_host.mmap_result gb_1 ∷ [])
          host.image
          host.cmdline
          (e_phnum host.image)
          headers
          (store m (info_at (ram host.ram_host.mmap_result gb_1 ∷ [])) (replicate info_size 0))
          l.bytes
    pub registers : l.regs ≡ record regs {
      rax = multiboot_header_magic;
      rbx = multiboot_guest;
      rip = e_entry host.image;
    }
    pub ready : Ready host host.vm_host.kvm.mmap_result l

  not_ata : (i : ℕ) → i < 8 → ¬ (IsAtaPort (com1 + i))
  not_ata i lt at = ground arith

  start_devices-Started :
      (host : KHost) (regs : Regs) (g h : List ℕ) (vm : Vm) (regs' : Regs) (m : Bytes)
      → GrantsK host regs g h
      → Returns
          (λ r.
            (l : Launched) × (r ≡ some l)
            × (l.bytes ≡ m)
            × (l.regs ≡ regs')
            × Ready host vm.kvm_run l)
          (start_devices program_header e_phnum e_entry read_at host vm regs' m)
  unfolding start_devices
  start_devices-Started host regs g h vm regs' m k =
      Returns-bind
        (serial_new-granted host.serial_memory (serial_handler host.serial_address) g h k.serial)
        λ (out, new) ((serial, is, same_port, carries), taken). rw is (
          Returns-bind (atapi_init-registers on_drive read_at (u64_of host.disk_fd) new)
            λ handlers set.
              Returns-bind
                (start_screen_lem host.screen_host host.sdl vm framebuffer_guest k.screen)
                λ (vm', screen) page. returns (
                  _,
                  refl,
                  refl,
                  refl,
                  record {
                    line = carries;
                    port = same_port;
                    drive = refl;
                    serial_ports = λ i lt. set.9 (com1 + i) (not_ata i lt) ∙ taken i lt;
                    data_port = set.0;
                    count_port = set.2;
                    page = page;
                  },
                ))

  -- With all that is asked for granted, and an image whose loaded segments lie in the file and in
  -- the gigabyte of memory, apart from each other and from the places of the multiboot
  -- information, the map and the command line, `main` comes to `vm_run`: the guest's memory is
  -- loaded and starts at the entry point, the serial port is at its eight ports with empty
  -- queues, and the drive at its data and sector count ports.
  pub k_launch-Started :
      (host : KHost) (regs : Regs) (g h : List ℕ) (headers : ℕ → ProgramHeader) (m : Bytes)
      → GrantsK host regs g h
      → Layout program_header (e_phnum host.image) host.image host.cmdline headers
      → Returns
          (λ r. (l : Launched) × (r ≡ some l) × Started host regs headers m l)
          (launch program_header e_phnum e_entry read_at host m)
  unfolding launch
  k_launch-Started host regs g h headers m k layout =
      let four : (host.argc == 4) ≡ true = rw k.arguments refl in
      let made : Returns (λ r. r ≡ some (fresh_vm host.vm_host)) (init_vm host.vm_host) =
        rw (init_vm-fresh_vm host.vm_host k.vm) (returns refl) in
      rw four (
        Returns-bind made λ r0 is0. rw is0 (
          rw (give_memory-ram host.ram_host (fresh_vm host.vm_host) gb_1 refl k.memory) (
            Returns-bind
              (load_mapped-Booted program_header e_phnum e_entry read_at host regs g h headers
                (ram_vm host) _ m k layout refl refl)
              λ r (m', is, booted). rw is (
                Returns-mono (start_devices-Started host regs g h (ram_vm host) _ m' k)
                  λ r' (l, is', same, same', ready). (
                    l,
                    is',
                    record { bytes = rw same booted; registers = same'; ready = ready },
                  )))))
